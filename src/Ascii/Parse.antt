-- ===== src/Ascii/Parse.antt =====
-- The command parsers of src/ascii.rs. A text is its bytes; `arg` reads a token by its index.
pub mod Valid
pub mod RoundTrip
use red_couch.Base.{
  ℕ, zero, suc, Bool, true, false, not, ◌&&◌, ◌||◌, Option, none, some, List, [], ◌∷◌, Bytes, codes,
  bytes_eq, is_utf8, length, drop, ltb, ◌==◌, get_or, if◌then◌else◌,
}
use red_couch.Decimal
use red_couch.Ascii.Command.{
  StoreOp, set, add, replace, RetrievalOp, get, gets, gat, gats, AsciiCmd, store, cas,
  append_prepend, retrieval, delete, counter, touch, flush_all, version, stats, verbosity, quit,
  CmdParseResult, client_error, unknown_command, panicked,
}
use red_couch.Ascii.Command.CmdParseResult.{ok}
use red_couch.Ascii.Validate.{Checked, err, bad_format, validate_key}
use red_couch.Ascii.Words.{split_whitespace, after_first_whitespace}

abbrev pub checked_number : Option ℕ → Checked ℕ
checked_number none = err bad_format
checked_number (some n) = Checked.ok n

abbrev pub parse_u32 : Bytes → Checked ℕ
parse_u32 s = checked_number (Decimal.parse_u32 s)

abbrev pub parse_u64 : Bytes → Checked ℕ
parse_u64 s = checked_number (Decimal.parse_u64 s)

-- `match c { Ok(v) => v, Err(e) => return ClientError(e) }`, and what follows
unfoldable pub check {ℓ} : {A : Type ℓ} → Checked A → (A → CmdParseResult) → CmdParseResult
check (Checked.ok a) next = next a
check (err e) next = client_error e

abbrev pub arg : List Bytes → ℕ → Bytes
arg args i = get_or args i []

-- the last argument, where there are `n + 1`, is "noreply"
abbrev pub noreply_at : ℕ → List Bytes → Bool
noreply_at n args = length args == suc n && bytes_eq (arg args n) (codes "noreply")

-- is there another word in the place of "noreply"?
abbrev pub bad_noreply_at : ℕ → List Bytes → Bool
bad_noreply_at n args = length args == suc n && not (bytes_eq (arg args n) (codes "noreply"))

unfoldable pub store_op : Bytes → Option StoreOp
store_op cmd_name =
    if bytes_eq cmd_name (codes "set")
    then some set
    else if bytes_eq cmd_name (codes "add")
    then some add
    else if bytes_eq cmd_name (codes "replace")
    then some replace
    else none

unfoldable pub parse_store_cmd : Bytes → List Bytes → CmdParseResult
unfolding check store_op
parse_store_cmd cmd_name args =
    if ltb (length args) 4 || ltb 5 (length args)
    then client_error bad_format
    else check (validate_key (arg args 0)) (λ _. check (parse_u32 (arg args 1)) (λ flags.
      check (parse_u32 (arg args 2)) (λ exptime. check (parse_u32 (arg args 3)) (λ bytes.
        if bad_noreply_at 4 args then client_error bad_format else elim (store_op cmd_name) [
          | none ↦ panicked
          | some cmd ↦ ok (store cmd (arg args 0) flags exptime bytes (noreply_at 4 args))
        ]))))

unfoldable pub parse_cas_cmd : List Bytes → CmdParseResult
unfolding check
parse_cas_cmd args =
    if ltb (length args) 5 || ltb 6 (length args)
    then client_error bad_format
    else check (validate_key (arg args 0)) (λ _. check (parse_u32 (arg args 1)) (λ flags.
      check (parse_u32 (arg args 2)) (λ exptime. check (parse_u32 (arg args 3)) (λ bytes.
        check (parse_u64 (arg args 4)) (λ cas_unique.
          if bad_noreply_at 5 args
          then client_error bad_format
          else ok (cas (arg args 0) flags exptime bytes cas_unique (noreply_at 5 args)))))))

unfoldable pub parse_append_prepend_cmd : Bytes → List Bytes → CmdParseResult
unfolding check
parse_append_prepend_cmd cmd_name args =
    if ltb (length args) 2 || ltb 3 (length args)
    then client_error bad_format
    else check (validate_key (arg args 0)) (λ _. check (parse_u32 (arg args 1)) (λ bytes.
      if bad_noreply_at 2 args
      then client_error bad_format
      else ok (
          append_prepend (bytes_eq cmd_name (codes "prepend")) (arg args 0) bytes
            (noreply_at 2 args))))

-- the loop over the keys
unfoldable pub check_keys : List Bytes → Checked (List Bytes)
check_keys [] = Checked.ok []
check_keys (k ∷ ks) = elim (validate_key k) [
  | err e ↦ err e
  | Checked.ok _ ↦ elim (check_keys ks) [ err e ↦ err e | Checked.ok keys ↦ Checked.ok (k ∷ keys) ]
]

unfoldable pub parse_retrieval_cmd : Bytes → List Bytes → CmdParseResult
unfolding check check_keys
parse_retrieval_cmd cmd_name args =
    if length args == 0
    then client_error bad_format
    else check (check_keys args) (λ keys.
      let cmd = if bytes_eq cmd_name (codes "gets") then gets else get in
      ok (retrieval cmd none keys))

unfoldable pub parse_gat_cmd : Bytes → List Bytes → CmdParseResult
unfolding check check_keys
parse_gat_cmd cmd_name args =
    if ltb (length args) 2
    then client_error bad_format
    else check (parse_u32 (arg args 0)) (λ exptime. check (check_keys (drop 1 args)) (λ keys.
      let cmd = if bytes_eq cmd_name (codes "gats") then gats else gat in
      ok (retrieval cmd (some exptime) keys)))

unfoldable pub parse_delete_cmd : List Bytes → CmdParseResult
unfolding check
parse_delete_cmd args =
    if length args == 0 || ltb 2 (length args)
    then client_error bad_format
    else check (validate_key (arg args 0)) (λ _.
      if bad_noreply_at 1 args
      then client_error bad_format
      else ok (delete (arg args 0) (noreply_at 1 args)))

unfoldable pub parse_counter_cmd : Bytes → List Bytes → CmdParseResult
unfolding check
parse_counter_cmd cmd_name args =
    if ltb (length args) 2 || ltb 3 (length args)
    then client_error bad_format
    else check (validate_key (arg args 0)) (λ _. check (parse_u64 (arg args 1)) (λ value.
      if bad_noreply_at 2 args
      then client_error bad_format
      else ok (counter (bytes_eq cmd_name (codes "decr")) (arg args 0) value (noreply_at 2 args))))

unfoldable pub parse_touch_cmd : List Bytes → CmdParseResult
unfolding check
parse_touch_cmd args =
    if ltb (length args) 2 || ltb 3 (length args)
    then client_error bad_format
    else check (validate_key (arg args 0)) (λ _. check (parse_u32 (arg args 1)) (λ exptime.
      if bad_noreply_at 2 args
      then client_error bad_format
      else ok (touch (arg args 0) exptime (noreply_at 2 args))))

-- the loop, with the delay and the flag so far
unfoldable pub flush_args : ℕ → Bool → List Bytes → CmdParseResult
flush_args delay noreply [] = ok (flush_all delay noreply)
flush_args delay noreply (a ∷ args) =
    if bytes_eq a (codes "noreply")
    then flush_args delay true args
    else elim (Decimal.parse_u32 a) [
      | some d ↦ flush_args d noreply args
      | none ↦ client_error bad_format
    ]

unfoldable pub parse_flush_cmd : List Bytes → CmdParseResult
unfolding flush_args
parse_flush_cmd args = flush_args 0 false args

-- is the last token "noreply"?
unfoldable pub last_is_noreply : List Bytes → Bool
last_is_noreply [] = false
last_is_noreply (t ∷ []) = bytes_eq t (codes "noreply")
last_is_noreply (t ∷ u ∷ ts) = last_is_noreply (u ∷ ts)

-- the text behind the command's name, where a token follows it
unfoldable pub stats_args : Bytes → List Bytes → Option Bytes
stats_args line tokens =
    let rest = after_first_whitespace line in
    if ltb 1 (length tokens) then (if length rest == 0 then none else some rest) else none

-- the `match` on the first token
unfoldable pub parse_tokens : Bytes → List Bytes → CmdParseResult
unfolding parse_store_cmd parse_cas_cmd parse_append_prepend_cmd parse_retrieval_cmd parse_gat_cmd
    parse_delete_cmd parse_counter_cmd parse_touch_cmd parse_flush_cmd last_is_noreply stats_args
parse_tokens line [] = unknown_command
parse_tokens line (name ∷ args) =
    if bytes_eq name (codes "set") || bytes_eq name (codes "add") || bytes_eq name (codes "replace")
    then parse_store_cmd name args
    else if bytes_eq name (codes "cas")
    then parse_cas_cmd args
    else if bytes_eq name (codes "append") || bytes_eq name (codes "prepend")
    then parse_append_prepend_cmd name args
    else if bytes_eq name (codes "get") || bytes_eq name (codes "gets")
    then parse_retrieval_cmd name args
    else if bytes_eq name (codes "gat") || bytes_eq name (codes "gats")
    then parse_gat_cmd name args
    else if bytes_eq name (codes "delete")
    then parse_delete_cmd args
    else if bytes_eq name (codes "incr") || bytes_eq name (codes "decr")
    then parse_counter_cmd name args
    else if bytes_eq name (codes "touch")
    then parse_touch_cmd args
    else if bytes_eq name (codes "flush_all")
    then parse_flush_cmd args
    else if bytes_eq name (codes "version")
    then ok version
    else if bytes_eq name (codes "stats")
    then ok (stats (stats_args line (name ∷ args)))
    else if bytes_eq name (codes "verbosity")
    then ok (verbosity (last_is_noreply (name ∷ args)))
    else if bytes_eq name (codes "quit")
    then ok quit
    else unknown_command

unfoldable pub parse_command_line : Bytes → CmdParseResult
unfolding parse_tokens
parse_command_line line =
    if is_utf8 line then parse_tokens line (split_whitespace line) else client_error bad_format
