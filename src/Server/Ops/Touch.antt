-- ===== src/Server/Ops/Touch.antt =====
-- `op_touch` of src/lib.rs.
use red_couch.Base.{
  ℕ, zero, pos, negsuc, not, ◌==◌, [], ◌∷◌, codes, length, slice, ℤ, unwrap_or, if◌then◌else◌,
}
use red_couch.ByteOrder.{ByteOrder}
use red_couch.Decimal.{to_string, parse_u64}
use red_couch.Protocol.Frame.{Request}
use red_couch.Protocol.Opcode.{Opcode}
use red_couch.Protocol.Status
use red_couch.Protocol.Wire.{cas_zero}
use red_couch.Redis.{
  Redis, array, static_error, cons, Reply, ok, err, touch, make_redis_key, cas_counter_key,
  eval_int, eval_str, eval_lua,
}
use red_couch.Server.Handler.{
  failed, call_failed, error_reply, unexpected, unknown_status, Conn, Handled, respond,
  respond_unless_quiet,
}
use red_couch.Server.Stats.{plus_one}

module _ ⦃bo : ByteOrder⦄ {r : Redis} where
  unfoldable pub touch_status : Opcode → Request → ℤ → ℕ → Conn r → Handled r
  touch_status opcode req (pos zero) new_cas c =
      respond_unless_quiet opcode Status.ok req new_cas [] c
  touch_status opcode req (negsuc zero) new_cas c = respond opcode Status.nf req cas_zero [] c
  touch_status opcode req _ new_cas c = (failed unknown_status, c)

  unfoldable pub touch_reply : Opcode → Request → Reply → Conn r → Handled r
  unfolding touch_status
  touch_reply opcode req (err e) c = (failed (call_failed e), c)
  touch_reply opcode req (ok (static_error e)) c = (failed error_reply, c)
  touch_reply opcode req (ok (array (cons status (cons cas _)))) c =
      touch_status opcode req (eval_int status) (unwrap_or (parse_u64 (eval_str r cas)) 0) c
  touch_reply opcode req _ c = (failed unexpected, c)

  unfoldable pub op_touch : Opcode → Request → Conn r → Handled r
  unfolding touch_reply
  op_touch opcode req c =
      let c' = record c { stats = record (c.stats) { cmd_touch = plus_one c.stats.cmd_touch } } in
      let expiry = bo.read_u32 (slice 0 4 req.extras) in
      let (reply, db') =
        eval_lua r touch
          (codes "2" ∷ make_redis_key req.key ∷ cas_counter_key ∷ to_string expiry ∷ []) c.db in
      if not (length req.extras == 4)
      then respond opcode Status.args req cas_zero [] c'
      else touch_reply opcode req reply (record c' { db = db' })
