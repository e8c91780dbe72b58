-- ===== src/Server/Ops/Plain.antt =====
-- `op_flush`, `op_version`, `op_verbosity` and the SASL handlers of src/lib.rs.
use red_couch.Base.{not, [], ◌∷◌, codes, bytes_eq, is_utf8, if◌then◌else◌}
use red_couch.ByteOrder.{ByteOrder}
use red_couch.Protocol.Frame.{Request}
use red_couch.Protocol.Opcode.{Opcode}
use red_couch.Protocol.Status
use red_couch.Protocol.Wire.{cas_zero}
use red_couch.Redis.{Redis, Reply, ok, err, flush, eval_lua}
use red_couch.Server.Handler.{failed, call_failed, Conn, Handled, respond, respond_unless_quiet}
use red_couch.Server.Stats.{plus_one}

module _ ⦃bo : ByteOrder⦄ {r : Redis} where
  -- only a failed call is an error: the reply's value is not looked at
  unfoldable pub flush_reply : Opcode → Request → Reply → Conn r → Handled r
  flush_reply opcode req (err e) c = (failed (call_failed e), c)
  flush_reply opcode req (ok _) c = respond_unless_quiet opcode Status.ok req cas_zero [] c

  unfoldable pub op_flush : Opcode → Request → Conn r → Handled r
  unfolding flush_reply
  op_flush opcode req c =
      let c' = record c { stats = record (c.stats) { cmd_flush = plus_one c.stats.cmd_flush } } in
      let (reply, db') = eval_lua r flush (codes "0" ∷ []) c.db in
      flush_reply opcode req reply (record c' { db = db' })

  unfoldable pub op_version : Opcode → Request → Conn r → Handled r
  op_version opcode req c = respond opcode Status.ok req cas_zero (codes "RedCouch 0.1.0") c

  unfoldable pub op_verbosity : Opcode → Request → Conn r → Handled r
  op_verbosity opcode req c = respond opcode Status.ok req cas_zero [] c

  unfoldable pub op_sasl_list_mechs : Opcode → Request → Conn r → Handled r
  op_sasl_list_mechs opcode req c =
      respond opcode Status.ok req cas_zero (codes "PLAIN")
        (record c { stats = record (c.stats) { auth_cmds = plus_one c.stats.auth_cmds } })

  -- a key that is no UTF-8 is taken for the empty text, which is not "PLAIN" either
  unfoldable pub op_sasl_auth : Opcode → Request → Conn r → Handled r
  op_sasl_auth opcode req c =
      let counted = record (c.stats) { auth_cmds = plus_one c.stats.auth_cmds } in
      let refused = record counted { auth_errors = plus_one counted.auth_errors } in
      let mechanism = if is_utf8 req.key then req.key else [] in
      if not (bytes_eq mechanism (codes "PLAIN"))
      then respond opcode Status.auth_error req cas_zero (codes "Unsupported SASL mechanism")
          (record c { stats = refused })
      else respond opcode Status.ok req cas_zero (codes "Authenticated")
          (record c { stats = counted })

  unfoldable pub op_sasl_step : Opcode → Request → Conn r → Handled r
  op_sasl_step opcode req c =
      let counted = record (c.stats) {
        auth_cmds = plus_one c.stats.auth_cmds;
        auth_errors = plus_one c.stats.auth_errors;
      } in
      respond opcode Status.auth_error req cas_zero
        (codes "SASL step not expected for PLAIN mechanism") (record c { stats = counted })
