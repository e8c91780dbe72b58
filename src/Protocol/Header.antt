-- ===== src/Protocol/Header.antt =====
-- `Header` of src/protocol.rs, the fixed 24 bytes in front of each request. An index or a slice
-- that the source takes behind its length check is `get_or` or `slice` here.
use red_couch.Base.{
  ℕ, ◌≤◌, ◌≡◌, arith, Option, none, some, Bytes, length, get_or, slice, ltb, if◌then◌else◌,
}
use red_couch.ByteOrder.{ByteOrder}
use red_couch.Protocol.Opcode
use red_couch.Protocol.Opcode.{Opcode}
use red_couch.Protocol.Wire.{header_len}

pub record Header : Type 0 where
  pub opcode : Option Opcode
  pub opcode_byte : ℕ
  pub key_len : ℕ
  pub extras_len : ℕ
  pub body_len : ℕ
  pub opaque : ℕ
  pub cas : ℕ

module _ ⦃bo : ByteOrder⦄ where
  -- the fields, read at their offsets
  unfoldable pub fields : Bytes → Header
  fields buf = record {
    opcode = Opcode.parse (get_or buf 1 0);
    opcode_byte = get_or buf 1 0;
    key_len = bo.read_u16 (slice 2 4 buf);
    extras_len = get_or buf 4 0;
    body_len = bo.read_u32 (slice 8 12 buf);
    opaque = bo.read_u32 (slice 12 16 buf);
    cas = bo.read_u64 (slice 16 24 buf);
  }

  unfoldable pub parse : Bytes → Option Header
  parse buf = if ltb (length buf) header_len then none else some (fields buf)

  pub parse_long : (buf : Bytes) → header_len ≤ length buf → parse buf ≡ some (fields buf)
  unfolding parse
  parse_long buf h = ground arith
