-- ===== src/Server/Loop.antt =====
-- The inner loop of `handle_binary_conn` of src/lib.rs, over the frames of a buffer. It runs on fuel,
-- one unit for each frame: the length of the buffer is enough.
mod Fuel
pub mod Chunks
use red_couch.Base.{
  ℕ, zero, suc, ◌+◌, Bool, true, false, List, [], ◌∷◌, ◌++◌, Bytes, codes, length, drop, ltb, ◌==◌,
  if◌then◌else◌,
}
use red_couch.ByteOrder.{ByteOrder}
use red_couch.Protocol.Frame.{
  Request, ParseResult, ok, incomplete, bad_magic, malformed_frame, oversized_frame,
  try_parse_request,
}
use red_couch.Protocol.Response.{write_error_for_raw_opcode}
use red_couch.Protocol.Status
use red_couch.Protocol.Wire.{max_body_len, header_len}
use red_couch.Redis.{Redis}
use red_couch.Server.Dispatch.{handle}
use red_couch.Server.Handler.{BridgeErr, timed_out, io_error, Br, done, failed, Conn, Handled}
use red_couch.Server.Ops.Stat.{Process}

-- How the loop over the frames of a buffer ends.
pub data BatchEnd : Type 0 where
  -- an incomplete frame is left: `break`
  left : Bytes → BatchEnd
  -- a bad magic byte: `return Ok(())`
  refused : BatchEnd
  -- an oversized frame, with its error response written to `out`
  oversized : BatchEnd
  -- a handler's error, passed on by `?`
  stopped : BridgeErr → BatchEnd
  out_of_fuel : BatchEnd

module _ ⦃bo : ByteOrder⦄ {r : Redis} where
  unfoldable pub write_frame_error : ℕ → ℕ → Bytes → Conn r → Conn r
  write_frame_error opaque opcode_byte message c = record c {
    out = write_error_for_raw_opcode c.out opcode_byte Status.args opaque message;
  }

  -- `handle(req, &mut out)?; buf.advance(used)`
  unfoldable pub after : Handled r → (Conn r → BatchEnd × Conn r) → BatchEnd × Conn r
  after (done, c) next = next c
  after (failed e, c) next = (stopped e, c)

module _ ⦃bo : ByteOrder⦄ {r : Redis} (p : Process) where
  -- one round of the inner loop; `next` is the rest of the loop
  unfoldable pub round :
      ParseResult (Request × ℕ)
      → Bytes
      → (Bytes → Conn r → BatchEnd × Conn r)
      → Conn r
      → BatchEnd × Conn r
  unfolding after write_frame_error
  round (ok (req, used)) buf next c = after (handle p req c) (next (drop used buf))
  round incomplete buf next c = (left buf, c)
  round bad_magic buf next c = (refused, c)
  round (malformed_frame opaque opcode_byte skip) buf next c =
      next (drop skip buf) (write_frame_error opaque opcode_byte (codes "Malformed frame") c)
  round (oversized_frame opaque opcode_byte) buf next c =
      (oversized, write_frame_error opaque opcode_byte (codes "Frame too large") c)

  -- the inner loop
  unfoldable pub batch : ℕ → Bytes → Conn r → BatchEnd × Conn r
  batch zero buf c = (out_of_fuel, c)
  batch (suc fuel) buf c = round (try_parse_request buf) buf (λ b c'. batch fuel b c') c
