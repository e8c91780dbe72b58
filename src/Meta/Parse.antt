-- ===== src/Meta/Parse.antt =====
-- `parse_meta_command`, `parse_meta_set` and `write_meta_flag_echo` of src/meta.rs.

pub mod Valid
use red_couch.Base.{
  ℕ, Bool, true, false, ◌||◌, Option, none, some, List, [], ◌∷◌, ◌++◌, Bytes, codes, bytes_eq,
  is_utf8, length, drop, get_or, ltb, if◌then◌else◌,
}
use red_couch.Decimal.{parse_u32}
use red_couch.Ascii.Validate.{Checked, err, bad_format, validate_key}
use red_couch.Ascii.Words.{split_whitespace}
use red_couch.Meta.Flags.{MetaFlag, parse_meta_flags, get_flag_token, has_flag, is_word}

pub data MetaCmd : Type 0 where
  get : (key : Bytes) → (flags : List MetaFlag) → MetaCmd
  set : (key : Bytes) → (datalen : ℕ) → (flags : List MetaFlag) → MetaCmd
  delete : (key : Bytes) → (flags : List MetaFlag) → MetaCmd
  arithmetic : (key : Bytes) → (flags : List MetaFlag) → MetaCmd
  noop : (flags : List MetaFlag) → MetaCmd
  debug : (key : Bytes) → (flags : List MetaFlag) → MetaCmd

pub data MetaParseResult : Type 0 where
  ok : MetaCmd → MetaParseResult
  client_error : Bytes → MetaParseResult
  need_data : MetaCmd → ℕ → MetaParseResult
  -- the `unreachable!()` of `parse_meta_command`
  panicked : MetaParseResult

-- `match c { Ok(f) => f, Err(e) => return ClientError(e) }`, and what follows
unfoldable pub check {ℓ} : {A : Type ℓ} → Checked A → (A → MetaParseResult) → MetaParseResult
check (Checked.ok a) next = next a
check (err e) next = client_error e

unfoldable pub parse_meta_set : List Bytes → MetaParseResult
unfolding check
parse_meta_set tokens =
    if ltb (length tokens) 3
    then client_error bad_format
    else check (validate_key (get_or tokens 1 [])) (λ _. elim (parse_u32 (get_or tokens 2 [])) [
      | none ↦ client_error bad_format
      | some datalen ↦
          check (parse_meta_flags (drop 3 tokens))
            (λ flags. need_data (set (get_or tokens 1 []) datalen flags) datalen)
    ])

-- the inner `match` on the name of the command
unfoldable pub keyed_command : Bytes → Bytes → List MetaFlag → MetaParseResult
keyed_command name key flags =
    if bytes_eq name (codes "mg")
    then ok (get key flags)
    else if bytes_eq name (codes "me")
    then ok (debug key flags)
    else if bytes_eq name (codes "md")
    then ok (delete key flags)
    else if bytes_eq name (codes "ma")
    then ok (arithmetic key flags)
    else panicked

unfoldable pub parse_keyed : Bytes → List Bytes → MetaParseResult
unfolding check keyed_command
parse_keyed name tokens =
    if ltb (length tokens) 2
    then client_error bad_format
    else check (validate_key (get_or tokens 1 [])) (λ _.
      check (parse_meta_flags (drop 2 tokens))
        (λ flags. keyed_command name (get_or tokens 1 []) flags))

-- the `match` on the first token
unfoldable pub parse_meta_tokens : List Bytes → MetaParseResult
unfolding check parse_keyed parse_meta_set
parse_meta_tokens [] = client_error bad_format
parse_meta_tokens (name ∷ args) =
    if is_word name "mn"
    then check (parse_meta_flags args) (λ flags. ok (noop flags))
    else if is_word name "mg" || is_word name "me" || is_word name "md" || is_word name "ma"
    then parse_keyed name (name ∷ args)
    else if is_word name "ms"
    then parse_meta_set (name ∷ args)
    else client_error bad_format

unfoldable pub parse_meta_command : Bytes → MetaParseResult
unfolding parse_meta_tokens
parse_meta_command line =
    if is_utf8 line then parse_meta_tokens (split_whitespace line) else client_error bad_format

-- the opaque token
unfoldable pub echo_opaque : Option Bytes → Bytes → Bytes
echo_opaque none out = out
echo_opaque (some opaque) out = out ++ (codes " O" ++ opaque)

unfoldable pub write_meta_flag_echo : Bytes → List MetaFlag → Bytes → Bytes
unfolding echo_opaque
write_meta_flag_echo out flags key =
    let with_opaque = echo_opaque (get_flag_token flags b'O') out in
    if has_flag flags b'k' then with_opaque ++ (codes " k" ++ key) else with_opaque
