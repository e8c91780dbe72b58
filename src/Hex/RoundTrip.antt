-- ===== src/Hex/RoundTrip.antt =====
-- Values of any bytes pass through the hex text unchanged.
use red_couch.Base.{
  ℕ, ◌*◌, ◌/◌, ◌%◌, ◌<◌, ◌≡◌, refl, Option, none, some, [], ◌∷◌, Bytes, IsBytes, length, ◌⊎◌, arith,
}
use red_couch.Hex.{hex_decode_lut, hex_pairs, hex_decode, hex_digit, hex_encode}

lut-hex_digit : (n : ℕ) → n < 16 → hex_decode_lut (hex_digit n) ≡ n
unfolding hex_decode_lut hex_digit
lut-hex_digit n h = ground arith

lut-byte :
    (b : ℕ)
    → b < 256
    → (hex_decode_lut (hex_digit (b / 16)) ≡ b / 16)
      × (hex_decode_lut (hex_digit (b % 16)) ≡ b % 16)
lut-byte b h = (lut-hex_digit (b / 16) (omega arith), lut-hex_digit (b % 16) (omega arith))

hex_pairs-hex_encode : (v : Bytes) → IsBytes v → hex_pairs (hex_encode v) ≡ some v
unfolding hex_pairs hex_encode
hex_pairs-hex_encode [] h = refl
hex_pairs-hex_encode (b ∷ bs) (h, t) = ground (arith, lut-byte b h, hex_pairs-hex_encode bs t)

length-hex_encode : (v : Bytes) → length (hex_encode v) % 2 ≡ 0
unfolding hex_encode
length-hex_encode [] = omega arith
length-hex_encode (b ∷ bs) = omega (arith, length-hex_encode bs)

-- Decoding the hex text of a byte string gives the byte string back, whatever its bytes.
pub hex_decode-hex_encode : (v : Bytes) → IsBytes v → hex_decode (hex_encode v) ≡ v
unfolding hex_decode
hex_decode-hex_encode v h = ground (arith, hex_pairs-hex_encode v h, length-hex_encode v)

-- What the loop has decoded: bytes, half as many as the digits.
abbrev Decoded : Bytes → Option Bytes → Type 0
Decoded hex none = Unit {0}
Decoded hex (some v) = IsBytes v × (2 * length v ≡ length hex)

hex_pairs-Decoded : (hex : Bytes) → Decoded hex (hex_pairs hex)
unfolding hex_pairs
hex_pairs-Decoded [] = (tt, omega arith)
hex_pairs-Decoded (x ∷ []) = tt
hex_pairs-Decoded (x ∷ y ∷ rest) = ground (arith, hex_pairs-Decoded rest)

-- On every input the result is bytes, and it is empty or has one byte for every two digits.
pub hex_decode_bytes :
    (hex : Bytes)
    → IsBytes (hex_decode hex)
      × ((hex_decode hex ≡ []) ⊎ (2 * length (hex_decode hex) ≡ length hex))
unfolding hex_decode
hex_decode_bytes hex = ground (arith, hex_pairs-Decoded hex)
