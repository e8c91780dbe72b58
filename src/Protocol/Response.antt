-- ===== src/Protocol/Response.antt =====
-- `ResponseMeta` and the response writers of src/protocol.rs. Every caller writes to a `Vec<u8>`,
-- where a write appends and cannot fail, so a writer takes the bytes written so far and returns
-- them with the response behind.
pub mod Layout
use red_couch.Base.{ℕ, ◌+◌, ◌%◌, ◌^◌, [], ◌∷◌, ◌++◌, Bytes, length, replicate, write_at}
use red_couch.ByteOrder.{ByteOrder}
use red_couch.Protocol.Opcode.{Opcode, to_byte}
use red_couch.Protocol.Wire.{magic_res, header_len, cas_zero}

pub record ResponseMeta : Type 0 where
  pub status : ℕ
  pub opaque : ℕ
  pub cas : ℕ

module _ ⦃bo : ByteOrder⦄ where
  -- the 24 bytes of `hdr`; `as u8`, `as u16`, `as u32` and the sum of `u32` keep the low bits
  unfoldable pub response_header : ℕ → ResponseMeta → Bytes → Bytes → Bytes → Bytes
  response_header opcode_byte meta extras key value =
      let total_body =
        (length extras % 2 ^ 32 + length key % 2 ^ 32 + length value % 2 ^ 32) % 2 ^ 32 in
      let hdr0 = write_at 0 (magic_res ∷ []) (replicate header_len 0) in
      let hdr1 = write_at 1 (opcode_byte ∷ []) hdr0 in
      let hdr2 = write_at 2 (bo.write_u16 (length key % 2 ^ 16)) hdr1 in
      let hdr3 = write_at 4 (length extras % 2 ^ 8 ∷ []) hdr2 in
      let hdr4 = write_at 6 (bo.write_u16 meta.status) hdr3 in
      let hdr5 = write_at 8 (bo.write_u32 total_body) hdr4 in
      let hdr6 = write_at 12 (bo.write_u32 meta.opaque) hdr5 in
      write_at 16 (bo.write_u64 meta.cas) hdr6

  unfoldable pub write_raw_response : Bytes → ℕ → ResponseMeta → Bytes → Bytes → Bytes → Bytes
  unfolding response_header
  write_raw_response w opcode_byte meta extras key value =
      w ++ (response_header opcode_byte meta extras key value ++ (extras ++ (key ++ value)))

  unfoldable pub write_response : Bytes → Opcode → ResponseMeta → Bytes → Bytes → Bytes → Bytes
  write_response w opcode meta extras key value =
      write_raw_response w (to_byte opcode) meta extras key value

  unfoldable pub write_simple_response : Bytes → Opcode → ℕ → ℕ → ℕ → Bytes → Bytes
  unfolding write_response
  write_simple_response w opcode status opaque cas body =
      write_response w opcode (record { status = status; opaque = opaque; cas = cas }) [] [] body

  unfoldable pub write_error_for_raw_opcode : Bytes → ℕ → ℕ → ℕ → Bytes → Bytes
  write_error_for_raw_opcode w opcode_byte status opaque body =
      write_raw_response w opcode_byte (record { status = status; opaque = opaque; cas = cas_zero })
        [] [] body
