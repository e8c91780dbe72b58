-- ===== src/Ascii/Parse/RoundTrip.antt =====
-- The command lines of the text protocol, written by the syntax that the comments of src/ascii.rs
-- give, and that they are read back.
pub mod Commands
pub mod Lines
use red_couch.Base.{
  ℕ, ◌<◌, ◌^◌, ◌≡◌, ◌≢◌, refl, Bool, true, false, Option, none, some, List, [], ◌∷◌, ◌++◌, Bytes,
  codes, IsAscii, arith,
}
use red_couch.Decimal.{to_string}
use red_couch.Ascii.Command.{
  StoreOp, set, add, replace, RetrievalOp, get, gets, gat, gats, AsciiCmd, store, cas,
  append_prepend, retrieval, delete, counter, touch, flush_all, version, stats, verbosity, quit,
}

abbrev pub store_name : StoreOp → Bytes
store_name set = codes "set"
store_name add = codes "add"
store_name replace = codes "replace"

abbrev pub retrieval_name : RetrievalOp → Bytes
retrieval_name get = codes "get"
retrieval_name gets = codes "gets"
retrieval_name gat = codes "gat"
retrieval_name gats = codes "gats"

abbrev pub concat_name : Bool → Bytes
concat_name true = codes "prepend"
concat_name false = codes "append"

abbrev pub counter_name : Bool → Bytes
counter_name true = codes "decr"
counter_name false = codes "incr"

abbrev pub noreply_words : Bool → List Bytes
noreply_words true = codes "noreply" ∷ []
noreply_words false = []

abbrev pub expiry_words : Option ℕ → List Bytes
expiry_words none = []
expiry_words (some exptime) = to_string exptime ∷ []

-- the name of the command, and the words that follow it
abbrev pub name_of : AsciiCmd → Bytes
name_of (store op _ _ _ _ _) = store_name op
name_of (cas _ _ _ _ _ _) = codes "cas"
name_of (append_prepend is_prepend _ _ _) = concat_name is_prepend
name_of (retrieval op _ _) = retrieval_name op
name_of (delete _ _) = codes "delete"
name_of (counter is_decr _ _ _) = counter_name is_decr
name_of (touch _ _ _) = codes "touch"
name_of (flush_all _ _) = codes "flush_all"
name_of version = codes "version"
name_of (stats _) = codes "stats"
name_of (verbosity _) = codes "verbosity"
name_of quit = codes "quit"

abbrev pub words_of : AsciiCmd → List Bytes
words_of (store _ key flags exptime bytes noreply) =
    key ∷ to_string flags ∷ to_string exptime ∷ to_string bytes ∷ noreply_words noreply
words_of (cas key flags exptime bytes cas_unique noreply) =
    key
    ∷ to_string flags
    ∷ to_string exptime
    ∷ to_string bytes
    ∷ to_string cas_unique
    ∷ noreply_words noreply
words_of (append_prepend _ key bytes noreply) = key ∷ to_string bytes ∷ noreply_words noreply
words_of (retrieval _ exptime keys) = expiry_words exptime ++ keys
words_of (delete key noreply) = key ∷ noreply_words noreply
words_of (counter _ key value noreply) = key ∷ to_string value ∷ noreply_words noreply
words_of (touch key exptime noreply) = key ∷ to_string exptime ∷ noreply_words noreply
words_of (flush_all delay noreply) = to_string delay ∷ noreply_words noreply
words_of version = []
words_of (stats _) = []
words_of (verbosity noreply) = noreply_words noreply
words_of quit = []

abbrev pub AreAscii : List Bytes → Type 0
AreAscii [] = Unit {0}
AreAscii (k ∷ ks) = IsAscii k × AreAscii ks

-- the keys are ASCII, and STATS has no arguments
abbrev pub IsPlain : AsciiCmd → Type 0
IsPlain (store _ key _ _ _ _) = IsAscii key
IsPlain (cas key _ _ _ _ _) = IsAscii key
IsPlain (append_prepend _ key _ _) = IsAscii key
IsPlain (retrieval _ _ keys) = AreAscii keys
IsPlain (delete key _) = IsAscii key
IsPlain (counter _ key _ _) = IsAscii key
IsPlain (touch key _ _) = IsAscii key
IsPlain (stats args) = args ≡ none
IsPlain _ = Unit {0}
