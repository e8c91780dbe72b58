-- ===== src/Server/Ops/Concat.antt =====
-- `op_append_prepend` of src/lib.rs.
use red_couch.Base.{
  ℕ, zero, suc, pos, negsuc, not, ◌==◌, [], ◌∷◌, codes, length, ℤ, unwrap_or, if◌then◌else◌,
}
use red_couch.ByteOrder.{ByteOrder}
use red_couch.Decimal.{to_string, parse_u64}
use red_couch.Protocol.Frame.{Request}
use red_couch.Protocol.Opcode
use red_couch.Protocol.Opcode.{Opcode, is_quiet, includes_key}
use red_couch.Protocol.Status
use red_couch.Protocol.Wire.{cas_zero}
use red_couch.Redis.{
  Redis, array, static_error, cons, Reply, ok, err, Script, append, prepend, make_redis_key,
  cas_counter_key, eval_int, eval_str, eval_lua,
}
use red_couch.Server.Handler.{
  failed, call_failed, error_reply, unexpected, unknown_status, Conn, Handled, respond,
  respond_unless_quiet,
}
use red_couch.Server.Stats.{plus_one}

unfoldable pub concat_script : Opcode → Script
concat_script Opcode.append = append
concat_script _ = prepend

module _ ⦃bo : ByteOrder⦄ {r : Redis} where
  -- -5: the key does not exist; -2: another CAS value
  unfoldable pub concat_status : Opcode → Request → ℤ → ℕ → Conn r → Handled r
  concat_status opcode req (pos zero) new_cas c =
      respond_unless_quiet opcode Status.ok req new_cas [] c
  concat_status opcode req (negsuc (suc (suc (suc (suc zero))))) new_cas c =
      respond opcode Status.not_stored req cas_zero [] c
  concat_status opcode req (negsuc (suc zero)) new_cas c =
      respond opcode Status.ix req cas_zero [] c
  concat_status opcode req _ new_cas c = (failed unknown_status, c)

  unfoldable pub concat_reply : Opcode → Request → Reply → Conn r → Handled r
  unfolding concat_status
  concat_reply opcode req (err e) c = (failed (call_failed e), c)
  concat_reply opcode req (ok (static_error e)) c = (failed error_reply, c)
  concat_reply opcode req (ok (array (cons status (cons cas _)))) c =
      concat_status opcode req (eval_int status) (unwrap_or (parse_u64 (eval_str r cas)) 0) c
  concat_reply opcode req _ c = (failed unexpected, c)

  unfoldable pub op_append_prepend : Opcode → Request → Conn r → Handled r
  unfolding concat_reply concat_script
  op_append_prepend opcode req c =
      let c' = record c { stats = record (c.stats) { cmd_set = plus_one c.stats.cmd_set } } in
      let args =
        codes "2"
        ∷ make_redis_key req.key
        ∷ cas_counter_key
        ∷ req.value
        ∷ to_string req.hdr.cas
        ∷ [] in
      let (reply, db') = eval_lua r (concat_script (Opcode.base opcode)) args c.db in
      if not (length req.extras == 0)
      then respond opcode Status.args req cas_zero [] c'
      else concat_reply opcode req reply (record c' { db = db' })
