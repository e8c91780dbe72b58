-- ===== src/Hex.antt =====
-- The hex text that carries a value out of the Lua scripts: `HEX_DECODE_LUT` and `hex_decode` of
-- src/lib.rs, and the table of LUA_GET, LUA_META_GET and LUA_GAT that encodes.
pub mod RoundTrip
use red_couch.Base.{
  ℕ, zero, suc, ◌+◌, ◌-◌, ◌*◌, ◌/◌, ◌%◌, ◌≤◌, ◌<◌, ◌≡◌, refl, ◌∙◌, ap, not, ◌&&◌, ◌||◌, Bool, true,
  false, Option, none, some, [], ◌∷◌, ◌++◌, Bytes, length, ltb, leb, ◌==◌, if◌then◌else◌, inl, inr,
  arith,
}

-- the table's entry at a byte; 0xFF stands for no digit
unfoldable pub hex_decode_lut : ℕ → ℕ
hex_decode_lut b =
    if leb b'0' b && leb b b'9'
    then b - b'0'
    else if leb b'a' b && leb b b'f'
    then b - b'a' + 10
    else if leb b'A' b && leb b b'F'
    then b - b'A' + 10
    else 0xFF

-- the loop; `none` is the early return of an empty vector
hex_pairs : Bytes → Option Bytes
hex_pairs [] = some []
hex_pairs (x ∷ []) = none
hex_pairs (x ∷ y ∷ rest) =
    let hi = hex_decode_lut x in
    let lo = hex_decode_lut y in
    let more = hex_pairs rest in
    if ltb 0x0F hi || ltb 0x0F lo
    then none
    else elim more [ none ↦ none | some out ↦ some ((hi * 16 + lo) ∷ out) ]

unfoldable pub hex_decode : Bytes → Bytes
unfolding hex_pairs hex_decode_lut
hex_decode hex =
    if not (length hex % 2 == 0) then [] else elim (hex_pairs hex) [ none ↦ [] | some out ↦ out ]

-- one digit of `string.format('%02x', i)`
unfoldable pub hex_digit : ℕ → ℕ
hex_digit n = if ltb n 10 then b'0' + n else b'a' + (n - 10)

-- `table.concat` of the entries `ht[string.byte(v, i)]`
unfoldable pub hex_encode : Bytes → Bytes
unfolding hex_digit
hex_encode [] = []
hex_encode (b ∷ bs) = hex_digit (b / 16) ∷ hex_digit (b % 16) ∷ hex_encode bs
