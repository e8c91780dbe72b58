-- ===== src/Ascii/Parse/RoundTrip/Commands.antt =====
-- Each parser of src/ascii.rs on the words of a valid command.
use red_couch.Base.{
  ℕ, ◌-◌, ◌^◌, ◌≡◌, ◌≢◌, refl, ap, ◌⊎◌, inl, inr, Bool, true, false, none, some, List, [], ◌∷◌,
  Bytes, codes, bytes_eq, arith,
}
use red_couch.Decimal.{to_string, parse_unsigned-to_string, IsDigits, to_string-IsDigits}
use red_couch.Ascii.Command.{
  StoreOp, set, add, replace, RetrievalOp, get, gets, gat, gats, store, cas, append_prepend,
  retrieval, delete, counter, touch, flush_all,
}
use red_couch.Ascii.Command.CmdParseResult.{ok}
use red_couch.Ascii.Parse.{
  check, checked_number, parse_u32, parse_u64, store_op, check_keys, flush_args, parse_store_cmd,
  parse_cas_cmd, parse_append_prepend_cmd, parse_retrieval_cmd, parse_gat_cmd, parse_delete_cmd,
  parse_counter_cmd, parse_touch_cmd, parse_flush_cmd,
}
use red_couch.Ascii.Parse.Valid.{U32, U64, AreKeys, IsValid}
use red_couch.Ascii.Parse.RoundTrip.{
  words_of, store_name, noreply_words, concat_name, counter_name, retrieval_name,
}
use red_couch.Ascii.Validate.{Checked, validate_key_complete}

parse_u32-to_string : (n : ℕ) → U32 n → parse_u32 (to_string n) ≡ Checked.ok n
parse_u32-to_string n h = ap checked_number (parse_unsigned-to_string (2 ^ 32 - 1) n (omega arith))

parse_u64-to_string : (n : ℕ) → U64 n → parse_u64 (to_string n) ≡ Checked.ok n
parse_u64-to_string n h = ap checked_number (parse_unsigned-to_string (2 ^ 64 - 1) n (omega arith))

store_op-store_name : (op : StoreOp) → store_op (store_name op) ≡ some op
unfolding store_op bytes_eq
store_op-store_name set = refl
store_op-store_name add = refl
store_op-store_name replace = refl

pub parse_store_cmd-words :
    (op : StoreOp) (key : Bytes) (flags exptime bytes : ℕ) (noreply : Bool)
    → IsValid (store op key flags exptime bytes noreply)
    → parse_store_cmd (store_name op) (words_of (store op key flags exptime bytes noreply))
      ≡ ok (store op key flags exptime bytes noreply)
unfolding parse_store_cmd check bytes_eq
parse_store_cmd-words op key flags exptime bytes true (k, (f, (e, b))) =
    rw
      (
        validate_key_complete key k,
        parse_u32-to_string flags f,
        parse_u32-to_string exptime e,
        parse_u32-to_string bytes b,
        store_op-store_name op,
      )
      refl
parse_store_cmd-words op key flags exptime bytes false (k, (f, (e, b))) =
    rw
      (
        validate_key_complete key k,
        parse_u32-to_string flags f,
        parse_u32-to_string exptime e,
        parse_u32-to_string bytes b,
        store_op-store_name op,
      )
      refl

pub parse_cas_cmd-words :
    (key : Bytes) (flags exptime bytes cas_unique : ℕ) (noreply : Bool)
    → IsValid (cas key flags exptime bytes cas_unique noreply)
    → parse_cas_cmd (words_of (cas key flags exptime bytes cas_unique noreply))
      ≡ ok (cas key flags exptime bytes cas_unique noreply)
unfolding parse_cas_cmd check bytes_eq
parse_cas_cmd-words key flags exptime bytes cas_unique true (k, (f, (e, (b, c)))) =
    rw
      (
        validate_key_complete key k,
        parse_u32-to_string flags f,
        parse_u32-to_string exptime e,
        parse_u32-to_string bytes b,
        parse_u64-to_string cas_unique c,
      )
      refl
parse_cas_cmd-words key flags exptime bytes cas_unique false (k, (f, (e, (b, c)))) =
    rw
      (
        validate_key_complete key k,
        parse_u32-to_string flags f,
        parse_u32-to_string exptime e,
        parse_u32-to_string bytes b,
        parse_u64-to_string cas_unique c,
      )
      refl

pub parse_append_prepend_cmd-words :
    (is_prepend : Bool) (key : Bytes) (bytes : ℕ) (noreply : Bool)
    → IsValid (append_prepend is_prepend key bytes noreply)
    → parse_append_prepend_cmd
        (concat_name is_prepend)
        (words_of (append_prepend is_prepend key bytes noreply))
      ≡ ok (append_prepend is_prepend key bytes noreply)
unfolding parse_append_prepend_cmd check bytes_eq
parse_append_prepend_cmd-words true key bytes true (k, b) =
    rw (validate_key_complete key k, parse_u32-to_string bytes b) refl
parse_append_prepend_cmd-words false key bytes true (k, b) =
    rw (validate_key_complete key k, parse_u32-to_string bytes b) refl
parse_append_prepend_cmd-words true key bytes false (k, b) =
    rw (validate_key_complete key k, parse_u32-to_string bytes b) refl
parse_append_prepend_cmd-words false key bytes false (k, b) =
    rw (validate_key_complete key k, parse_u32-to_string bytes b) refl

pub parse_delete_cmd-words :
    (key : Bytes) (noreply : Bool)
    → IsValid (delete key noreply)
    → parse_delete_cmd (words_of (delete key noreply)) ≡ ok (delete key noreply)
unfolding parse_delete_cmd check bytes_eq
parse_delete_cmd-words key true k = rw (validate_key_complete key k) refl
parse_delete_cmd-words key false k = rw (validate_key_complete key k) refl

pub parse_counter_cmd-words :
    (is_decr : Bool) (key : Bytes) (value : ℕ) (noreply : Bool)
    → IsValid (counter is_decr key value noreply)
    → parse_counter_cmd (counter_name is_decr) (words_of (counter is_decr key value noreply))
      ≡ ok (counter is_decr key value noreply)
unfolding parse_counter_cmd check bytes_eq
parse_counter_cmd-words true key value true (k, v) =
    rw (validate_key_complete key k, parse_u64-to_string value v) refl
parse_counter_cmd-words false key value true (k, v) =
    rw (validate_key_complete key k, parse_u64-to_string value v) refl
parse_counter_cmd-words true key value false (k, v) =
    rw (validate_key_complete key k, parse_u64-to_string value v) refl
parse_counter_cmd-words false key value false (k, v) =
    rw (validate_key_complete key k, parse_u64-to_string value v) refl

pub parse_touch_cmd-words :
    (key : Bytes) (exptime : ℕ) (noreply : Bool)
    → IsValid (touch key exptime noreply)
    → parse_touch_cmd (words_of (touch key exptime noreply)) ≡ ok (touch key exptime noreply)
unfolding parse_touch_cmd check bytes_eq
parse_touch_cmd-words key exptime true (k, e) =
    rw (validate_key_complete key k, parse_u32-to_string exptime e) refl
parse_touch_cmd-words key exptime false (k, e) =
    rw (validate_key_complete key k, parse_u32-to_string exptime e) refl

check_keys-AreKeys : (keys : List Bytes) → AreKeys keys → check_keys keys ≡ Checked.ok keys
unfolding check_keys
check_keys-AreKeys [] h = refl
check_keys-AreKeys (k ∷ ks) (h, hs) =
    rw (check_keys, validate_key_complete k h, check_keys-AreKeys ks hs) refl

pub parse_retrieval_cmd-words :
    (op : RetrievalOp) (keys : List Bytes)
    → AreKeys keys
    → keys ≢ []
    → (op ≡ get) ⊎ (op ≡ gets)
    → parse_retrieval_cmd (retrieval_name op) keys ≡ ok (retrieval op none keys)
unfolding parse_retrieval_cmd check bytes_eq
parse_retrieval_cmd-words op [] h ne o = absurd (ne refl)
parse_retrieval_cmd-words op (k ∷ ks) h ne (inl e) =
    rw (e, check_keys-AreKeys (k ∷ ks) h) (ground arith)
parse_retrieval_cmd-words op (k ∷ ks) h ne (inr e) =
    rw (e, check_keys-AreKeys (k ∷ ks) h) (ground arith)

pub parse_gat_cmd-words :
    (op : RetrievalOp) (exptime : ℕ) (keys : List Bytes)
    → U32 exptime
    → AreKeys keys
    → keys ≢ []
    → (op ≡ gat) ⊎ (op ≡ gats)
    → parse_gat_cmd (retrieval_name op) (to_string exptime ∷ keys)
      ≡ ok (retrieval op (some exptime) keys)
unfolding parse_gat_cmd check bytes_eq
parse_gat_cmd-words op exptime [] t h ne o = absurd (ne refl)
parse_gat_cmd-words op exptime (k ∷ ks) t h ne (inl e) =
    rw (e, parse_u32-to_string exptime t, check_keys-AreKeys (k ∷ ks) h) (ground arith)
parse_gat_cmd-words op exptime (k ∷ ks) t h ne (inr e) =
    rw (e, parse_u32-to_string exptime t, check_keys-AreKeys (k ∷ ks) h) (ground arith)

-- a number is not the word "noreply"
digits-noreply : (w : Bytes) → IsDigits w → bytes_eq w (codes "noreply") ≡ false
unfolding bytes_eq
digits-noreply [] h = refl
digits-noreply (c ∷ w) ((lo, hi), h) = ground arith

pub parse_flush_cmd-words :
    (delay : ℕ) (noreply : Bool)
    → IsValid (flush_all delay noreply)
    → parse_flush_cmd (words_of (flush_all delay noreply)) ≡ ok (flush_all delay noreply)
unfolding parse_flush_cmd flush_args bytes_eq
parse_flush_cmd-words delay noreply h =
    rw
      (
        digits-noreply (to_string delay) (to_string-IsDigits delay),
        parse_unsigned-to_string (2 ^ 32 - 1) delay (omega arith),
      )
      (rest noreply)
  where
    rest : (b : Bool) → flush_args delay false (noreply_words b) ≡ ok (flush_all delay b)
    rest true = refl
    rest false = refl
