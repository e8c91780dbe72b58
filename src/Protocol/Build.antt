-- ===== src/Protocol/Build.antt =====
-- `build_raw_request_frame` and `build_request_frame` of src/protocol.rs: a vector of zeros that is
-- overwritten part by part. A cast `as u8`, `as u16` or `as u32` keeps the low bits.
pub mod Layout
pub mod Parsed
use red_couch.Base.{ℕ, ◌+◌, ◌%◌, ◌^◌, [], ◌∷◌, Bytes, length, replicate, write_at}
use red_couch.ByteOrder.{ByteOrder}
use red_couch.Protocol.Opcode.{Opcode, to_byte}
use red_couch.Protocol.Wire.{magic_req, header_len}

module _ ⦃bo : ByteOrder⦄ where
  -- the writes into the header, on a frame of zeros
  unfoldable pub write_header : ℕ → ℕ → ℕ → Bytes → Bytes → ℕ → Bytes → Bytes
  write_header opcode_byte opaque cas extras key body_len frame0 =
      let frame1 = write_at 0 (magic_req ∷ []) frame0 in
      let frame2 = write_at 1 (opcode_byte ∷ []) frame1 in
      let frame3 = write_at 2 (bo.write_u16 (length key % 2 ^ 16)) frame2 in
      let frame4 = write_at 4 (length extras % 2 ^ 8 ∷ []) frame3 in
      let frame5 = write_at 8 (bo.write_u32 (body_len % 2 ^ 32)) frame4 in
      let frame6 = write_at 12 (bo.write_u32 opaque) frame5 in write_at 16 (bo.write_u64 cas) frame6

  unfoldable pub build_raw_request_frame : ℕ → ℕ → ℕ → Bytes → Bytes → Bytes → Bytes
  unfolding write_header
  build_raw_request_frame opcode_byte opaque cas extras key value =
      let body_len = length extras + length key + length value in
      let frame =
        write_header opcode_byte opaque cas extras key body_len
          (replicate (header_len + body_len) 0) in
      let frame' = write_at header_len extras frame in
      let key_start = header_len + length extras in
      let frame'' = write_at key_start key frame' in
      let val_start = key_start + length key in write_at val_start value frame''

  unfoldable pub build_request_frame : Opcode → ℕ → ℕ → Bytes → Bytes → Bytes → Bytes
  build_request_frame opcode opaque cas extras key value =
      build_raw_request_frame (to_byte opcode) opaque cas extras key value
