-- ===== src/Tests/Meta.antt =====
-- Runs of the meta commands, and examples of their theorems.
use red_couch.Base.{◌≡◌, refl, some, [], ◌∷◌, List, Bytes, codes, is_utf8, bytes_eq}
use red_couch.Decimal.{parse_unsigned}
use red_couch.Ascii.Validate.{validate_key}
use red_couch.Ascii.Words.{split_whitespace}
use red_couch.Meta.Flags.{
  MetaFlag, parse_meta_flags, get_flag_token, has_flag, has_byte, validate_ms_flags,
}
use red_couch.Meta.Flags.Numeric.{ms, IsNumeric, validate-IsNumeric}
use red_couch.Meta.Parse.{set, need_data, parse_meta_command}
use red_couch.Meta.Parse.Valid.{Sound, parse_meta_command-Sound}

abbrev ms_line : Bytes
ms_line = codes "ms user:1 5 T300 F7"

abbrev ms_flags : List MetaFlag
ms_flags =
    record { ch = b'T'; token = some (codes "300") }
    ∷ record { ch = b'F'; token = some (codes "7") }
    ∷ []

parse_ms_line : parse_meta_command ms_line ≡ need_data (set (codes "user:1") 5 ms_flags) 5
unfolding parse_meta_command is_utf8 split_whitespace bytes_eq validate_key parse_unsigned
    parse_meta_flags
parse_ms_line = refl

parse_meta_command-Sound_example : Sound (parse_meta_command ms_line)
parse_meta_command-Sound_example = parse_meta_command-Sound ms_line

validate-IsNumeric_example : IsNumeric (get_flag_token ms_flags b'T')
unfolding validate_ms_flags has_byte has_flag parse_unsigned
validate-IsNumeric_example = validate-IsNumeric ms ms_flags b'T' refl refl refl
