-- ===== src/Ascii/Parse/RoundTrip/Lines.antt =====
-- `parse_command_line` of src/ascii.rs reads back the lines that are written for commands.
use red_couch.Base.{
  ℕ, ◌≡◌, refl, inl, inr, Bool, true, false, Option, none, some, List, [], ◌∷◌, Bytes, bytes_eq,
  IsAscii, is_utf8-IsAscii, arith,
}
use red_couch.Decimal.{to_string, IsDigits, to_string-IsDigits, to_string-ne_nil}
use red_couch.Ascii.Command.{
  set, add, replace, get, gets, gat, gats, AsciiCmd, store, cas, append_prepend, retrieval, delete,
  counter, touch, flush_all, version, stats, verbosity, quit,
}
use red_couch.Ascii.Command.CmdParseResult.{ok}
use red_couch.Ascii.Parse.{parse_tokens, parse_command_line, last_is_noreply, stats_args}
use red_couch.Ascii.Parse.Valid.{AreKeys, IsValid}
use red_couch.Ascii.Parse.RoundTrip.{IsPlain, AreAscii, name_of, words_of, noreply_words}
use red_couch.Ascii.Parse.RoundTrip.Commands.{
  parse_store_cmd-words, parse_cas_cmd-words, parse_append_prepend_cmd-words,
  parse_retrieval_cmd-words, parse_gat_cmd-words, parse_delete_cmd-words, parse_counter_cmd-words,
  parse_touch_cmd-words, parse_flush_cmd-words,
}
use red_couch.Ascii.Validate.{IsKey, IsPrintable}
use red_couch.Ascii.Words.Split.{
  IsGraphic, IsWord, AreWords, unwords, unwords-IsAscii, split_whitespace-unwords,
}

IsPrintable-IsGraphic : (key : Bytes) → IsPrintable key → IsAscii key → IsGraphic key
IsPrintable-IsGraphic [] p a = tt
IsPrintable-IsGraphic (c ∷ cs) ((lo, ne), p) (hi, a) = ((lo, hi), IsPrintable-IsGraphic cs p a)

IsDigits-IsGraphic : (w : Bytes) → IsDigits w → IsGraphic w
IsDigits-IsGraphic [] h = tt
IsDigits-IsGraphic (c ∷ w) ((lo, hi), h) = ((omega arith, omega arith), IsDigits-IsGraphic w h)

key-IsWord : (key : Bytes) → IsKey key → IsAscii key → IsWord key
key-IsWord [] ((lo, hi), p) a = absurd (omega arith)
key-IsWord (c ∷ cs) (h, p) a = ((λ e. cc), IsPrintable-IsGraphic (c ∷ cs) p a)

number-IsWord : (n : ℕ) → IsWord (to_string n)
number-IsWord n = (to_string-ne_nil n, IsDigits-IsGraphic (to_string n) (to_string-IsDigits n))

noreply-AreWords : (b : Bool) → AreWords (noreply_words b)
noreply-AreWords false = tt
noreply-AreWords true = ground arith

keys-AreWords : (keys : List Bytes) → AreKeys keys → AreAscii keys → AreWords keys
keys-AreWords [] h a = tt
keys-AreWords (k ∷ ks) (h, hs) (a, as') = (key-IsWord k h a, keys-AreWords ks hs as')

name-IsWord : (cmd : AsciiCmd) → IsWord (name_of cmd)
name-IsWord (store set _ _ _ _ _) = ground arith
name-IsWord (store add _ _ _ _ _) = ground arith
name-IsWord (store replace _ _ _ _ _) = ground arith
name-IsWord (cas _ _ _ _ _ _) = ground arith
name-IsWord (append_prepend true _ _ _) = ground arith
name-IsWord (append_prepend false _ _ _) = ground arith
name-IsWord (retrieval get _ _) = ground arith
name-IsWord (retrieval gets _ _) = ground arith
name-IsWord (retrieval gat _ _) = ground arith
name-IsWord (retrieval gats _ _) = ground arith
name-IsWord (delete _ _) = ground arith
name-IsWord (counter true _ _ _) = ground arith
name-IsWord (counter false _ _ _) = ground arith
name-IsWord (touch _ _ _) = ground arith
name-IsWord (flush_all _ _) = ground arith
name-IsWord version = ground arith
name-IsWord (stats _) = ground arith
name-IsWord (verbosity _) = ground arith
name-IsWord quit = ground arith

expiry-AreWords :
    (exptime : Option ℕ) (keys : List Bytes)
    → AreWords keys
    → AreWords (words_of (retrieval get exptime keys))
expiry-AreWords none keys h = h
expiry-AreWords (some t) keys h = (number-IsWord t, h)

words-AreWords : (cmd : AsciiCmd) → IsValid cmd → IsPlain cmd → AreWords (words_of cmd)
words-AreWords (store _ key f e b n) (k, v) a = (
  key-IsWord key k a,
  (number-IsWord f, (number-IsWord e, (number-IsWord b, noreply-AreWords n))),
)
words-AreWords (cas key f e b c n) (k, v) a = (
  key-IsWord key k a,
  (number-IsWord f, (number-IsWord e, (number-IsWord b, (number-IsWord c, noreply-AreWords n)))),
)
words-AreWords (append_prepend _ key b n) (k, v) a =
    (key-IsWord key k a, (number-IsWord b, noreply-AreWords n))
words-AreWords (retrieval op exptime keys) (x, (h, ne)) a =
    expiry-AreWords exptime keys (keys-AreWords keys h a)
words-AreWords (delete key n) k a = (key-IsWord key k a, noreply-AreWords n)
words-AreWords (counter _ key b n) (k, v) a =
    (key-IsWord key k a, (number-IsWord b, noreply-AreWords n))
words-AreWords (touch key b n) (k, v) a =
    (key-IsWord key k a, (number-IsWord b, noreply-AreWords n))
words-AreWords (flush_all d n) v a = (number-IsWord d, noreply-AreWords n)
words-AreWords version v a = tt
words-AreWords (stats _) v a = tt
words-AreWords (verbosity n) v a = noreply-AreWords n
words-AreWords quit v a = tt

-- the command line of a command
abbrev pub line_of : AsciiCmd → Bytes
line_of cmd = unwords (name_of cmd) (words_of cmd)

parse_tokens-words :
    (line : Bytes) (cmd : AsciiCmd)
    → IsValid cmd
    → IsPlain cmd
    → parse_tokens line (name_of cmd ∷ words_of cmd) ≡ ok cmd
unfolding parse_tokens bytes_eq last_is_noreply stats_args
parse_tokens-words line (store set key f e b n) v a = parse_store_cmd-words set key f e b n v
parse_tokens-words line (store add key f e b n) v a = parse_store_cmd-words add key f e b n v
parse_tokens-words line (store replace key f e b n) v a =
    parse_store_cmd-words replace key f e b n v
parse_tokens-words line (cas key f e b c n) v a = parse_cas_cmd-words key f e b c n v
parse_tokens-words line (append_prepend true key b n) v a =
    parse_append_prepend_cmd-words true key b n v
parse_tokens-words line (append_prepend false key b n) v a =
    parse_append_prepend_cmd-words false key b n v
parse_tokens-words line (retrieval get exptime keys) (e, (h, ne)) a =
    rw e (parse_retrieval_cmd-words get keys h ne (inl refl))
parse_tokens-words line (retrieval gets exptime keys) (e, (h, ne)) a =
    rw e (parse_retrieval_cmd-words gets keys h ne (inr refl))
parse_tokens-words line (retrieval gat exptime keys) ((t, (e, u)), (h, ne)) a =
    rw e (parse_gat_cmd-words gat t keys u h ne (inl refl))
parse_tokens-words line (retrieval gats exptime keys) ((t, (e, u)), (h, ne)) a =
    rw e (parse_gat_cmd-words gats t keys u h ne (inr refl))
parse_tokens-words line (delete key n) v a = parse_delete_cmd-words key n v
parse_tokens-words line (counter true key x n) v a = parse_counter_cmd-words true key x n v
parse_tokens-words line (counter false key x n) v a = parse_counter_cmd-words false key x n v
parse_tokens-words line (touch key e n) v a = parse_touch_cmd-words key e n v
parse_tokens-words line (flush_all d n) v a = parse_flush_cmd-words d n v
parse_tokens-words line version v a = refl
parse_tokens-words line (stats args) v a = rw a refl
parse_tokens-words line (verbosity true) v a = refl
parse_tokens-words line (verbosity false) v a = refl
parse_tokens-words line quit v a = refl

-- The line of a valid command with ASCII keys, and without arguments where it is STATS, is read
-- back as that command.
pub parse_command_line-line_of :
    (cmd : AsciiCmd) → IsValid cmd → IsPlain cmd → parse_command_line (line_of cmd) ≡ ok cmd
unfolding parse_command_line
parse_command_line-line_of cmd v a =
    let name = name-IsWord cmd in
    let words = words-AreWords cmd v a in
    rw
      (
        is_utf8-IsAscii (line_of cmd) (unwords-IsAscii (name_of cmd) (words_of cmd) name words),
        split_whitespace-unwords (name_of cmd) (words_of cmd) name words,
      )
      (parse_tokens-words (line_of cmd) cmd v a)
