-- ===== src/Server/Dispatch.antt =====
-- `handle` of src/lib.rs.
use red_couch.Base.{Option, none, some, [], codes, if◌then◌else◌}
use red_couch.ByteOrder.{ByteOrder}
use red_couch.Protocol.Frame.{Request}
use red_couch.Protocol.Opcode
use red_couch.Protocol.Opcode.{Opcode, is_quiet}
use red_couch.Protocol.Response.{write_simple_response, write_error_for_raw_opcode}
use red_couch.Protocol.Status
use red_couch.Protocol.Wire.{cas_zero}
use red_couch.Redis.{Redis}
use red_couch.Server.Handler.{done, failed, connection_aborted, Conn, Handled, respond}
use red_couch.Server.Ops.Concat.{op_append_prepend}
use red_couch.Server.Ops.Counter.{op_counter}
use red_couch.Server.Ops.Delete.{op_delete}
use red_couch.Server.Ops.Get.{op_get, op_gat}
use red_couch.Server.Ops.Plain.{
  op_flush, op_version, op_verbosity, op_sasl_list_mechs, op_sasl_auth, op_sasl_step,
}
use red_couch.Server.Ops.Stat.{Process, op_stat}
use red_couch.Server.Ops.Store.{op_store}
use red_couch.Server.Ops.Touch.{op_touch}

module _ ⦃bo : ByteOrder⦄ {r : Redis} where
  -- the answer to an opcode byte that is no opcode
  unfoldable pub unknown_command : Request → Conn r → Handled r
  unknown_command req c = (
    done,
    record c {
      out =
          write_error_for_raw_opcode c.out req.hdr.opcode_byte Status.unk req.hdr.opaque
            (codes "Unknown command");
    },
  )

  -- a loud QUIT writes its response, and both variants fail
  unfoldable pub quit : Opcode → Request → Conn r → Handled r
  quit opcode req c =
      let c' = record c {
        out = write_simple_response c.out opcode Status.ok req.hdr.opaque cas_zero [];
      } in
      (failed connection_aborted, (if is_quiet opcode then c else c'))

module _ ⦃bo : ByteOrder⦄ {r : Redis} (p : Process) where
  -- `match opcode.base()`
  unfoldable pub handle_base : Opcode → Opcode → Request → Conn r → Handled r
  handle_base Opcode.get opcode req c = op_get opcode req c
  handle_base Opcode.get_k opcode req c = op_get opcode req c
  handle_base Opcode.set opcode req c = op_store opcode req c
  handle_base Opcode.add opcode req c = op_store opcode req c
  handle_base Opcode.replace opcode req c = op_store opcode req c
  handle_base Opcode.delete opcode req c = op_delete opcode req c
  handle_base Opcode.increment opcode req c = op_counter opcode req c
  handle_base Opcode.decrement opcode req c = op_counter opcode req c
  handle_base Opcode.touch opcode req c = op_touch opcode req c
  handle_base Opcode.gat opcode req c = op_gat opcode req c
  handle_base Opcode.append opcode req c = op_append_prepend opcode req c
  handle_base Opcode.prepend opcode req c = op_append_prepend opcode req c
  handle_base Opcode.flush opcode req c = op_flush opcode req c
  handle_base Opcode.version opcode req c = op_version opcode req c
  handle_base Opcode.stat opcode req c = op_stat p opcode req c
  handle_base Opcode.verbosity opcode req c = op_verbosity opcode req c
  handle_base Opcode.sasl_list_mechs opcode req c = op_sasl_list_mechs opcode req c
  handle_base Opcode.sasl_auth opcode req c = op_sasl_auth opcode req c
  handle_base Opcode.sasl_step opcode req c = op_sasl_step opcode req c
  handle_base Opcode.noop opcode req c = respond opcode Status.ok req cas_zero [] c
  handle_base Opcode.quit opcode req c = quit opcode req c
  handle_base _ opcode req c = unknown_command req c

  unfoldable pub handle_known : Option Opcode → Request → Conn r → Handled r
  handle_known none req c = unknown_command req c
  handle_known (some opcode) req c = handle_base (Opcode.base opcode) opcode req c

  unfoldable pub handle : Request → Conn r → Handled r
  unfolding handle_known
  handle req c = handle_known req.hdr.opcode req c
