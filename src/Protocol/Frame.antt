-- ===== src/Protocol/Frame.antt =====
-- `Request`, `ParseResult`, `try_parse_request` and `parse_request` of src/protocol.rs.
pub mod Stable
pub mod Sound
use red_couch.Base.{
  ℕ, ◌+◌, ◌≡◌, refl, ◌≢◌, ◌⊎◌, inl, inr, not, ◌||◌, Option, none, some, [], ◌∷◌, Bytes, length,
  slice, ltb, ◌==◌, if◌then◌else◌,
}
use red_couch.ByteOrder.{ByteOrder}
use red_couch.Protocol.Header
use red_couch.Protocol.Header.{Header}
use red_couch.Protocol.Wire.{magic_req, max_body_len, max_key_len, header_len}

pub record Request : Type 0 where
  pub hdr : Header
  pub extras : Bytes
  pub key : Bytes
  pub value : Bytes

pub data ParseResult {ℓ} (A : Type ℓ) : Type ℓ where
  ok : A → ParseResult A
  incomplete : ParseResult A
  bad_magic : ParseResult A
  -- opaque, opcode_byte, bytes_to_skip
  malformed_frame : ℕ → ℕ → ℕ → ParseResult A
  -- opaque, opcode_byte
  oversized_frame : ℕ → ℕ → ParseResult A

pub incomplete-cases {ℓ} : {A : Type ℓ} (r : ParseResult A) → (r ≡ incomplete) ⊎ (r ≢ incomplete)
incomplete-cases incomplete = inl refl
incomplete-cases (ok a) = inr (λ e. cc)
incomplete-cases bad_magic = inr (λ e. cc)
incomplete-cases (malformed_frame _ _ _) = inr (λ e. cc)
incomplete-cases (oversized_frame _ _) = inr (λ e. cc)

-- the three slices of the frame that `hdr` describes
unfoldable pub cut : Header → Bytes → Request
cut hdr buf =
    let extras_end = header_len + hdr.extras_len in
    let key_end = extras_end + hdr.key_len in
    record {
      hdr = hdr;
      extras = slice header_len extras_end buf;
      key = slice extras_end key_end buf;
      value = slice key_end (header_len + hdr.body_len) buf;
    }

module _ ⦃bo : ByteOrder⦄ where
  -- the rest of `try_parse_request`, from the header on
  unfoldable pub with_header : Option Header → Bytes → ParseResult (Request × ℕ)
  with_header none buf = incomplete
  with_header (some hdr) buf =
      if ltb max_body_len hdr.body_len || ltb max_key_len hdr.key_len
      then oversized_frame hdr.opaque hdr.opcode_byte
      else let total = header_len + hdr.body_len in
        if ltb (length buf) total
        then incomplete
        else let extras_end = header_len + hdr.extras_len in
          let key_end = extras_end + hdr.key_len in
          if ltb total key_end || ltb total extras_end
          then malformed_frame hdr.opaque hdr.opcode_byte total
          else ok (cut hdr buf, total)

  unfoldable pub try_parse_request : Bytes → ParseResult (Request × ℕ)
  unfolding with_header
  try_parse_request [] = incomplete
  try_parse_request (b ∷ bs) =
      if not (b == magic_req) then bad_magic else with_header (Header.parse (b ∷ bs)) (b ∷ bs)

  -- the wrapper that keeps only a complete frame
  unfoldable pub parse_request : Bytes → Option (Request × ℕ)
  parse_request buf = elim (try_parse_request buf) [ ok pair ↦ some pair | _ ↦ none ]
