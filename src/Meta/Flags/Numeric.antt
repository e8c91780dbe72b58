-- ===== src/Meta/Flags/Numeric.antt =====
-- What the validators of src/meta.rs promise of the numeric flags.
use red_couch.Base.{
  ℕ, ◌≡◌, refl, true, false, Option, none, some, List, [], ◌∷◌, Bytes, codes, ◌==◌, arith,
  Bool-cases, Option-cases, inl, inr, if◌then◌else◌,
}
use red_couch.Decimal.{parse_u64}
use red_couch.Ascii.Validate.{Checked, ok, err}
use red_couch.Meta.Flags.{
  MetaFlag, and_then, has_flag, get_flag_token, has_byte, only_supported, check_numeric,
  validate_numeric_tokens, validate_mode_token_present, check_ms_mode, check_ma_mode,
  validate_mg_flags, validate_ms_flags, validate_md_flags, validate_ma_flags,
}

-- the commands with numeric flags, their validators and those flags
pub data MetaVerb : Type 0 where
  mg ms md ma : MetaVerb

abbrev pub validate : MetaVerb → List MetaFlag → Checked (Unit {0})
validate mg = validate_mg_flags
validate ms = validate_ms_flags
validate md = validate_md_flags
validate ma = validate_ma_flags

abbrev pub numeric_flags : MetaVerb → Bytes
numeric_flags mg = codes "T"
numeric_flags ms = codes "FTC"
numeric_flags md = codes "C"
numeric_flags ma = codes "DJN"

-- a flag's token is a number
abbrev pub IsNumeric : Option Bytes → Type 0
IsNumeric token = (tok : Bytes) × (n : ℕ) × ((token ≡ some tok) × (parse_u64 tok ≡ some n))

and_then-ok {ℓ} :
    {B : Type ℓ} (c : Checked (Unit {0})) (next : Unit {0} → Checked B) (b : B)
    → and_then c next ≡ ok b
    → (c ≡ ok tt) × (next tt ≡ ok b)
and_then-ok (ok u) next b h = (refl, h)
and_then-ok (err e) next b h = absurd (ground arith)

check_numeric-IsNumeric : (f : MetaFlag) → check_numeric f ≡ ok tt → IsNumeric (f.token)
unfolding check_numeric
check_numeric-IsNumeric f h = elim (Option-cases (f.token)) [
  | inl e ↦ absurd (no_token e)
  | inr (tok, e) ↦ elim (Option-cases (parse_u64 tok)) [
    | inl q ↦ absurd (no_number tok e q)
    | inr (n, q) ↦ (tok, n, (e, q))
  ]
]
  where
    no_token : f.token ≡ none → ⊥
    no_token e = ground arith

    no_number : (tok : Bytes) → f.token ≡ some tok → parse_u64 tok ≡ none → ⊥
    no_number tok e q = ground arith

validate_numeric_tokens-IsNumeric :
    (flags : List MetaFlag) (nums : Bytes) (ch : ℕ)
    → validate_numeric_tokens flags nums ≡ ok tt
    → has_byte nums ch ≡ true
    → has_flag flags ch ≡ true
    → IsNumeric (get_flag_token flags ch)
unfolding validate_numeric_tokens has_flag get_flag_token
validate_numeric_tokens-IsNumeric [] nums ch h m p = absurd (ground arith)
validate_numeric_tokens-IsNumeric (f ∷ flags) nums ch h m p = elim (Bool-cases (f.ch == ch)) [
  | inl e ↦ rw e (check_numeric-IsNumeric f (checked e))
  | inr e ↦ rw e (validate_numeric_tokens-IsNumeric flags nums ch (both.1) m (later e))
]
  where
    both :
        ((if has_byte nums (f.ch) then check_numeric f else ok tt) ≡ ok tt)
        × (validate_numeric_tokens flags nums ≡ ok tt)
    both = and_then-ok (if has_byte nums (f.ch) then check_numeric f else ok tt) _ tt h

    checked : (f.ch == ch) ≡ true → check_numeric f ≡ ok tt
    checked e = ground (arith, both.0)

    later : (f.ch == ch) ≡ false → has_flag flags ch ≡ true
    later e = ground arith

-- the last of two or four checks
second : (a b : Checked (Unit {0})) → and_then a (λ _. b) ≡ ok tt → b ≡ ok tt
second a b h = (and_then-ok a (λ _. b) tt h).1

fourth :
    (a b c d : Checked (Unit {0}))
    → and_then a (λ _. and_then b (λ _. and_then c (λ _. d))) ≡ ok tt
    → d ≡ ok tt
fourth a b c d h =
    second c d (second b (and_then c (λ _. d)) (second a (and_then b (λ _. and_then c (λ _. d))) h))

-- Where the validator of a command accepts the flags, each of the command's numeric flags that is
-- among them has a token, and the token is a 64-bit number.
pub validate-IsNumeric :
    (verb : MetaVerb) (flags : List MetaFlag) (ch : ℕ)
    → validate verb flags ≡ ok tt
    → has_byte (numeric_flags verb) ch ≡ true
    → has_flag flags ch ≡ true
    → IsNumeric (get_flag_token flags ch)
unfolding validate_mg_flags validate_ms_flags validate_md_flags validate_ma_flags
validate-IsNumeric mg flags ch h m p =
    validate_numeric_tokens-IsNumeric flags (codes "T") ch
      (second (only_supported (codes "vcfksOqtT") flags) _ h) m p
validate-IsNumeric md flags ch h m p =
    validate_numeric_tokens-IsNumeric flags (codes "C") ch
      (second (only_supported (codes "CqOk") flags) _ h) m p
validate-IsNumeric ms flags ch h m p =
    validate_numeric_tokens-IsNumeric flags (codes "FTC") ch
      (fourth (only_supported (codes "FTCqOkM") flags) (validate_mode_token_present flags)
        (check_ms_mode flags (get_flag_token flags b'M')) _ h)
      m p
validate-IsNumeric ma flags ch h m p =
    validate_numeric_tokens-IsNumeric flags (codes "DJN") ch
      (fourth (only_supported (codes "DJNqOkvcM") flags) (validate_mode_token_present flags)
        (check_ma_mode (get_flag_token flags b'M')) _ h)
      m p
