-- ===== src/Server/Ops/Store.antt =====
-- `op_store` of src/lib.rs: SET, ADD, REPLACE and their quiet variants.
use red_couch.Base.{
  ℕ, zero, suc, pos, negsuc, not, ◌==◌, [], ◌∷◌, Bytes, codes, length, slice, ℤ, unwrap_or,
  if◌then◌else◌,
}
use red_couch.ByteOrder.{ByteOrder}
use red_couch.Decimal.{to_string, parse_u64}
use red_couch.Protocol.Frame.{Request}
use red_couch.Protocol.Opcode
use red_couch.Protocol.Opcode.{Opcode, is_quiet, includes_key}
use red_couch.Protocol.Status
use red_couch.Protocol.Wire.{cas_zero}
use red_couch.Redis.{
  Redis, array, static_error, cons, Reply, ok, err, store, make_redis_key, cas_counter_key,
  eval_int, eval_str, eval_lua,
}
use red_couch.Server.Handler.{
  failed, call_failed, error_reply, unexpected, unknown_status, Conn, Handled, respond,
  respond_unless_quiet,
}
use red_couch.Server.Stats.{Stats, plus_one}

unfoldable pub op_name : Opcode → Bytes
op_name Opcode.add = codes "add"
op_name Opcode.replace = codes "replace"
op_name _ = codes "set"

abbrev pub count_hit : Stats → Stats
count_hit s = record s { cas_hits = plus_one s.cas_hits }

abbrev pub count_miss : Stats → Stats
count_miss s = record s { cas_misses = plus_one s.cas_misses }

abbrev pub count_badval : Stats → Stats
count_badval s = record s { cas_badval = plus_one s.cas_badval }

-- `if is_cas_op { ... }`
unfoldable pub count_if_cas : Request → (Stats → Stats) → Stats → Stats
count_if_cas req count s = if req.hdr.cas == 0 then s else count s

module _ ⦃bo : ByteOrder⦄ {r : Redis} where
  -- `match status_code`
  unfoldable pub store_status : Opcode → Request → ℤ → ℕ → Conn r → Handled r
  store_status opcode req (pos zero) new_cas c =
      respond_unless_quiet opcode Status.ok req new_cas []
        (record c { stats = count_if_cas req count_hit c.stats })
  store_status opcode req (negsuc zero) new_cas c =
      respond opcode Status.nf req cas_zero []
        (record c { stats = count_if_cas req count_miss c.stats })
  store_status opcode req (negsuc (suc zero)) new_cas c =
      respond opcode Status.ix req cas_zero []
        (record c { stats = count_if_cas req count_badval c.stats })
  store_status opcode req _ new_cas c = (failed unknown_status, c)

  unfoldable pub store_reply : Opcode → Request → Reply → Conn r → Handled r
  store_reply opcode req (err e) c = (failed (call_failed e), c)
  store_reply opcode req (ok (static_error e)) c = (failed error_reply, c)
  store_reply opcode req (ok (array (cons status (cons cas _)))) c =
      store_status opcode req (eval_int status) (unwrap_or (parse_u64 (eval_str r cas)) 0) c
  store_reply opcode req _ c = (failed unexpected, c)

  unfoldable pub op_store : Opcode → Request → Conn r → Handled r
  op_store opcode req c =
      let c' = record c { stats = record (c.stats) { cmd_set = plus_one c.stats.cmd_set } } in
      let flags = bo.read_u32 (slice 0 4 req.extras) in
      let expiry = bo.read_u32 (slice 4 8 req.extras) in
      let args =
        codes "2"
        ∷ make_redis_key req.key
        ∷ cas_counter_key
        ∷ op_name (Opcode.base opcode)
        ∷ req.value
        ∷ to_string flags
        ∷ to_string req.hdr.cas
        ∷ to_string expiry
        ∷ [] in
      let (reply, db') = eval_lua r store args c.db in
      if not (length req.extras == 8)
      then respond opcode Status.args req cas_zero [] c'
      else store_reply opcode req reply (record c' { db = db' })
