-- ===== src/Ascii/Validate.antt =====
-- `validate_key` of src/ascii.rs, and the keys that it accepts.
use red_couch.Base.{
  ℕ, ◌≤◌, ◌<◌, ◌≡◌, ◌≢◌, refl, Bool, true, false, ◌||◌, [], ◌∷◌, Bytes, codes, length, ltb, leb,
  ◌==◌, if◌then◌else◌, arith,
}

-- `Result<A, String>`
pub data Checked {ℓ} (A : Type ℓ) : Type ℓ where
  ok : A → Checked A
  err : Bytes → Checked A

abbrev pub max_key_len : ℕ
max_key_len = 250

abbrev pub bad_format : Bytes
bad_format = codes "bad command line format"

-- the loop over the bytes
bytes_ok : Bytes → Bool
bytes_ok [] = true
bytes_ok (b ∷ bs) = let rest = bytes_ok bs in if leb b 0x20 || b == 0x7F then false else rest

unfoldable pub validate_key : Bytes → Checked (Unit {0})
unfolding bytes_ok
validate_key key =
    if length key == 0 || ltb max_key_len (length key)
    then err bad_format
    else if bytes_ok key
    then ok tt
    else err bad_format

-- no byte is a control character, a space or DEL
abbrev pub IsPrintable : Bytes → Type 0
IsPrintable [] = Unit {0}
IsPrintable (b ∷ bs) = ((0x20 < b) × (b ≢ 0x7F)) × IsPrintable bs

-- the keys of the text protocol
abbrev pub IsKey : Bytes → Type 0
IsKey key = ((1 ≤ length key) × (length key ≤ max_key_len)) × IsPrintable key

bytes_ok-IsPrintable : (key : Bytes) → bytes_ok key ≡ true → IsPrintable key
unfolding bytes_ok
bytes_ok-IsPrintable [] h = tt
bytes_ok-IsPrintable (b ∷ bs) h = ground (arith, bytes_ok-IsPrintable bs)

pub validate_key-IsKey : (key : Bytes) → validate_key key ≡ ok tt → IsKey key
unfolding validate_key
validate_key-IsKey key h = ground (arith, bytes_ok-IsPrintable key)

bytes_ok_complete : (key : Bytes) → IsPrintable key → bytes_ok key ≡ true
unfolding bytes_ok
bytes_ok_complete [] h = refl
bytes_ok_complete (b ∷ bs) (h, hs) = ground (arith, bytes_ok_complete bs hs)

pub validate_key_complete : (key : Bytes) → IsKey key → validate_key key ≡ ok tt
unfolding validate_key
validate_key_complete key (h, p) = ground (arith, bytes_ok_complete key p)
