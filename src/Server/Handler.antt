-- ===== src/Server/Handler.antt =====
-- What the command handlers of src/lib.rs share: the state that they change, and `BridgeErr`.
use red_couch.Base.{ℕ, Bytes, if◌then◌else◌}
use red_couch.ByteOrder.{ByteOrder}
use red_couch.Protocol.Frame.{Request}
use red_couch.Protocol.Opcode.{Opcode, is_quiet}
use red_couch.Protocol.Response.{write_simple_response}
use red_couch.Redis.{Redis}
use red_couch.Server.Stats.{Stats}

-- Why a handler ends the connection. The message of a `BridgeErr::Redis` is only logged; here it is
-- told what happened.
pub data BridgeErr : Type 0 where
  connection_aborted timed_out io_error : BridgeErr
  call_failed : Bytes → BridgeErr
  error_reply unexpected unknown_status : BridgeErr

-- `Br<()>`
pub data Br : Type 0 where
  done : Br
  failed : BridgeErr → Br

-- the database, the counters, and the responses not yet sent
pub record Conn (r : Redis) : Type 0 where
  pub db : r.Db
  pub stats : Stats
  pub out : Bytes

abbrev pub Handled : Redis → Type 0
Handled r = Br × Conn r

module _ ⦃bo : ByteOrder⦄ {r : Redis} where
  -- `write_simple_response(out, ...)?; Ok(())`
  unfoldable pub respond : Opcode → ℕ → Request → ℕ → Bytes → Conn r → Handled r
  respond opcode status req cas body c =
      (done, record c { out = write_simple_response c.out opcode status req.hdr.opaque cas body })

  unfoldable pub respond_unless_quiet : Opcode → ℕ → Request → ℕ → Bytes → Conn r → Handled r
  unfolding respond
  respond_unless_quiet opcode status req cas body c =
      if is_quiet opcode then (done, c) else respond opcode status req cas body c
