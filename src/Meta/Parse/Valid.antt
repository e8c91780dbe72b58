-- ===== src/Meta/Parse/Valid.antt =====
-- What every meta command that the parser of src/meta.rs accepts satisfies.
use red_couch.Base.{
  ℕ, ◌<◌, ◌-◌, ◌^◌, ◌≡◌, refl, Bool, true, false, ◌||◌, some, List, [], ◌∷◌, Bytes, is_utf8, length,
  drop, get_or, ltb, if◌then◌else◌, Option-cases, inl, inr, arith,
}
use red_couch.Decimal.{parse_u32, parse_unsigned-le}
use red_couch.Ascii.Validate.{Checked, err, bad_format, validate_key, IsKey, validate_key-IsKey}
use red_couch.Ascii.Words.{split_whitespace}
use red_couch.Meta.Flags.{MetaFlag, parse_meta_flags, is_word}
use red_couch.Meta.Parse.{
  MetaCmd, get, set, delete, arithmetic, noop, debug, MetaParseResult, ok, client_error, need_data,
  panicked, check, parse_meta_set, keyed_command, parse_keyed, parse_meta_tokens,
  parse_meta_command,
}

-- a command that needs no data
abbrev pub IsDataless : MetaCmd → Type 0
IsDataless (get key _) = IsKey key
IsDataless (set _ _ _) = ⊥
IsDataless (delete key _) = IsKey key
IsDataless (arithmetic key _) = IsKey key
IsDataless (noop _) = Unit {0}
IsDataless (debug key _) = IsKey key

-- a command that waits for `n` bytes
abbrev pub Awaits : ℕ → MetaCmd → Type 0
Awaits n (set key datalen _) = IsKey key × ((datalen ≡ n) × (n < 2 ^ 32))
Awaits n _ = ⊥

-- what holds of an accepted command; there is no panic
abbrev pub Sound : MetaParseResult → Type 0
Sound (ok cmd) = IsDataless cmd
Sound (need_data cmd n) = Awaits n cmd
Sound (client_error _) = Unit {0}
Sound panicked = ⊥

if-Sound :
    (b : Bool) (x y : MetaParseResult)
    → (b ≡ true → Sound x)
    → (b ≡ false → Sound y)
    → Sound (if b then x else y)
if-Sound true x y p q = p refl
if-Sound false x y p q = q refl

check-Sound {ℓ} :
    {A : Type ℓ} (c : Checked A) (next : A → MetaParseResult)
    → ((a : A) → c ≡ Checked.ok a → Sound (next a))
    → Sound (check c next)
unfolding check
check-Sound (Checked.ok a) next h = h a refl
check-Sound (err e) next h = tt

refused {ℓ} : {A : Type ℓ} → A → Sound (client_error bad_format)
refused a = tt

key-Sound :
    (s : Bytes) (next : Unit {0} → MetaParseResult)
    → (IsKey s → Sound (next tt))
    → Sound (check (validate_key s) next)
key-Sound s next h = check-Sound (validate_key s) next (λ u e. h (validate_key-IsKey s e))

parse_meta_set-Sound : (tokens : List Bytes) → Sound (parse_meta_set tokens)
unfolding parse_meta_set
parse_meta_set-Sound tokens = if-Sound (ltb (length tokens) 3) _ _ refused (λ _.
    key-Sound (get_or tokens 1 []) _ (λ key. elim (Option-cases (parse_u32 (get_or tokens 2 []))) [
      | inl e ↦ rw e tt
      | inr (n, e) ↦ rw e (
          check-Sound (parse_meta_flags (drop 3 tokens)) _ (λ flags _. (key, (refl, in_range n e))))
    ]))
  where
    in_range : (n : ℕ) → parse_u32 (get_or tokens 2 []) ≡ some n → n < 2 ^ 32
    in_range n e = ground (arith, parse_unsigned-le (2 ^ 32 - 1) (get_or tokens 2 []) n)

keyed_command-Sound :
    (name key : Bytes) (flags : List MetaFlag)
    → (is_word name "mg" || is_word name "me" || is_word name "md" || is_word name "ma") ≡ true
    → IsKey key
    → Sound (keyed_command name key flags)
unfolding keyed_command
keyed_command-Sound name key flags h k =
    if-Sound (is_word name "mg") _ _ (λ _. k)
      (λ a.
        if-Sound (is_word name "me") _ _ (λ _. k)
          (λ b.
            if-Sound (is_word name "md") _ _ (λ _. k)
              (λ c. if-Sound (is_word name "ma") _ _ (λ _. k) (λ d. none_left a b c d))))
  where
    none_left :
        is_word name "mg" ≡ false
        → is_word name "me" ≡ false
        → is_word name "md" ≡ false
        → is_word name "ma" ≡ false
        → ⊥
    none_left a b c d = ground arith

parse_keyed-Sound :
    (name : Bytes) (tokens : List Bytes)
    → (is_word name "mg" || is_word name "me" || is_word name "md" || is_word name "ma") ≡ true
    → Sound (parse_keyed name tokens)
unfolding parse_keyed
parse_keyed-Sound name tokens h = if-Sound (ltb (length tokens) 2) _ _ refused (λ _.
    key-Sound (get_or tokens 1 []) _ (λ key.
      check-Sound (parse_meta_flags (drop 2 tokens)) _
        (λ flags _. keyed_command-Sound name (get_or tokens 1 []) flags h key)))

parse_meta_tokens-Sound : (tokens : List Bytes) → Sound (parse_meta_tokens tokens)
unfolding parse_meta_tokens
parse_meta_tokens-Sound [] = tt
parse_meta_tokens-Sound (name ∷ args) =
    if-Sound (is_word name "mn") (check (parse_meta_flags args) (λ flags. ok (noop flags)))
      (if is_word name "mg" || is_word name "me" || is_word name "md" || is_word name "ma"
        then parse_keyed name (name ∷ args)
        else if is_word name "ms"
        then parse_meta_set (name ∷ args)
        else client_error bad_format)
      (λ _. check-Sound (parse_meta_flags args) _ (λ flags _. tt))
      (λ _.
        if-Sound (is_word name "mg" || is_word name "me" || is_word name "md" || is_word name "ma")
          (parse_keyed name (name ∷ args))
          (if is_word name "ms" then parse_meta_set (name ∷ args) else client_error bad_format)
          (parse_keyed-Sound name (name ∷ args))
          (λ _.
            if-Sound (is_word name "ms") (parse_meta_set (name ∷ args)) (client_error bad_format)
              (λ _. parse_meta_set-Sound (name ∷ args)) refused))

-- Of every line, `parse_meta_command` accepts only commands with a valid key, where they have one; a
-- set command, and no other, waits for data, for as many bytes as it declares, a 32-bit number; and
-- the `unreachable!()` is never reached.
pub parse_meta_command-Sound : (line : Bytes) → Sound (parse_meta_command line)
unfolding parse_meta_command
parse_meta_command-Sound line =
    if-Sound (is_utf8 line) _ _ (λ _. parse_meta_tokens-Sound (split_whitespace line)) refused
