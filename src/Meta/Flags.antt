-- ===== src/Meta/Flags.antt =====
-- The flags of the meta commands and their validators, of src/meta.rs.
pub mod Numeric
use Prim.Native.String.{String}
use red_couch.Base.{
  ℕ, ◌+◌, ◌/◌, ◌%◌, Bool, true, false, not, ◌&&◌, ◌||◌, Option, none, some, List, [], ◌∷◌, ◌++◌,
  Bytes, codes, bytes_eq, is_utf8, ltb, ◌==◌, if◌then◌else◌,
}
use red_couch.Decimal.{parse_u64}
use red_couch.Ascii.Validate.{Checked, ok, err}

pub record MetaFlag : Type 0 where
  pub ch : ℕ
  pub token : Option Bytes

-- `?`, and what follows it
abbrev pub and_then {ℓ ℓ'} : {A : Type ℓ} {B : Type ℓ'} → Checked A → (A → Checked B) → Checked B
and_then (ok a) next = next a
and_then (err e) next = err e

-- the text of `ch as char`
abbrev pub char_text : ℕ → Bytes
char_text ch = if ltb ch 128 then ch ∷ [] else (0xC0 + ch / 64) ∷ (0x80 + ch % 64) ∷ []

-- the token behind the flag's character
abbrev flag_token : Bytes → Checked (Option Bytes)
flag_token [] = ok none
flag_token (c ∷ cs) =
    if is_utf8 (c ∷ cs) then ok (some (c ∷ cs)) else err (codes "bad flag token encoding")

unfoldable pub parse_meta_flags : List Bytes → Checked (List MetaFlag)
parse_meta_flags [] = ok []
parse_meta_flags ([] ∷ toks) = parse_meta_flags toks
parse_meta_flags ((c ∷ cs) ∷ toks) = and_then (flag_token cs) (λ token.
    and_then (parse_meta_flags toks) (λ flags. ok (record { ch = c; token = token } ∷ flags)))

unfoldable pub has_flag : List MetaFlag → ℕ → Bool
has_flag [] ch = false
has_flag (f ∷ flags) ch = f.ch == ch || has_flag flags ch

unfoldable pub get_flag_token : List MetaFlag → ℕ → Option Bytes
get_flag_token [] ch = none
get_flag_token (f ∷ flags) ch = if f.ch == ch then f.token else get_flag_token flags ch

-- `contains` of a byte string
unfoldable pub has_byte : Bytes → ℕ → Bool
has_byte [] c = false
has_byte (b ∷ bs) c = b == c || has_byte bs c

abbrev pub ignored_flags : Bytes
ignored_flags = codes "PL"

-- the loop that refuses the flags that are not supported
unfoldable pub only_supported : Bytes → List MetaFlag → Checked (Unit {0})
unfolding has_byte
only_supported supported [] = ok tt
only_supported supported (f ∷ flags) =
    let rest = only_supported supported flags in
    if has_byte supported f.ch || has_byte ignored_flags f.ch
    then rest
    else err (codes "unsupported meta flag '" ++ (char_text f.ch ++ codes "'"))

-- one numeric flag
unfoldable pub check_numeric : MetaFlag → Checked (Unit {0})
check_numeric f = elim (f.token) [
  | none ↦ err (codes "flag '" ++ (char_text f.ch ++ codes "' requires a numeric token"))
  | some tok ↦ elim (parse_u64 tok) [
    | some n ↦ ok tt
    | none ↦ err (
        codes "bad numeric value '"
        ++ (tok ++ (codes "' for flag '" ++ (char_text f.ch ++ codes "'"))))
  ]
]

unfoldable pub validate_numeric_tokens : List MetaFlag → Bytes → Checked (Unit {0})
unfolding check_numeric has_byte
validate_numeric_tokens [] numeric_flags = ok tt
validate_numeric_tokens (f ∷ flags) numeric_flags =
    and_then (if has_byte numeric_flags f.ch then check_numeric f else ok tt)
      (λ _. validate_numeric_tokens flags numeric_flags)

abbrev is_none : Option Bytes → Bool
is_none none = true
is_none (some _) = false

unfoldable pub validate_mode_token_present : List MetaFlag → Checked (Unit {0})
validate_mode_token_present [] = ok tt
validate_mode_token_present (f ∷ flags) =
    let rest = validate_mode_token_present flags in
    if f.ch == b'M' && is_none f.token then err (codes "flag 'M' requires a mode token") else rest

unfoldable pub validate_mg_flags : List MetaFlag → Checked (Unit {0})
unfolding only_supported validate_numeric_tokens
validate_mg_flags flags =
    and_then (only_supported (codes "vcfksOqtT") flags)
      (λ _. validate_numeric_tokens flags (codes "T"))

abbrev pub is_word : Bytes → String → Bool
is_word w word = bytes_eq w (codes word)

-- the mode of `ms`
unfoldable pub check_ms_mode : List MetaFlag → Option Bytes → Checked (Unit {0})
unfolding has_flag
check_ms_mode flags none = ok tt
check_ms_mode flags (some mode) =
    if not (
      is_word mode "S"
      || is_word mode "E"
      || is_word mode "A"
      || is_word mode "P"
      || is_word mode "R")
    then err (codes "unsupported ms mode '" ++ (mode ++ codes "'"))
    else if (is_word mode "A" || is_word mode "P") && (has_flag flags b'F' || has_flag flags b'T')
    then err (codes "flags F/T not supported with ms mode '" ++ (mode ++ codes "'"))
    else ok tt

unfoldable pub validate_ms_flags : List MetaFlag → Checked (Unit {0})
unfolding only_supported validate_numeric_tokens validate_mode_token_present check_ms_mode
    get_flag_token
validate_ms_flags flags = and_then (only_supported (codes "FTCqOkM") flags) (λ _.
    and_then (validate_mode_token_present flags) (λ _.
      and_then (check_ms_mode flags (get_flag_token flags b'M'))
        (λ _. validate_numeric_tokens flags (codes "FTC"))))

unfoldable pub validate_md_flags : List MetaFlag → Checked (Unit {0})
unfolding only_supported validate_numeric_tokens
validate_md_flags flags =
    and_then (only_supported (codes "CqOk") flags) (λ _. validate_numeric_tokens flags (codes "C"))

-- the mode of `ma`
unfoldable pub check_ma_mode : Option Bytes → Checked (Unit {0})
check_ma_mode none = ok tt
check_ma_mode (some mode) =
    if bytes_eq mode (codes "I") || bytes_eq mode (codes "D")
    then ok tt
    else err (codes "unsupported ma mode '" ++ (mode ++ codes "'"))

unfoldable pub validate_ma_flags : List MetaFlag → Checked (Unit {0})
unfolding only_supported validate_numeric_tokens validate_mode_token_present check_ma_mode
    get_flag_token
validate_ma_flags flags = and_then (only_supported (codes "DJNqOkvcM") flags) (λ _.
    and_then (validate_mode_token_present flags) (λ _.
      and_then (check_ma_mode (get_flag_token flags b'M'))
        (λ _. validate_numeric_tokens flags (codes "DJN"))))

unfoldable pub validate_mn_flags : List MetaFlag → Checked (Unit {0})
unfolding only_supported
validate_mn_flags flags = only_supported (codes "O") flags

unfoldable pub validate_me_flags : List MetaFlag → Checked (Unit {0})
unfolding only_supported
validate_me_flags flags = only_supported (codes "Okq") flags
