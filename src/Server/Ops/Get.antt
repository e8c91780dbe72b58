-- ===== src/Server/Ops/Get.antt =====
-- `op_get` and `op_gat` of src/lib.rs.
use red_couch.Base.{
  not, ◌==◌, [], ◌∷◌, codes, length, slice, minus, int_eq, unwrap_or, if◌then◌else◌,
}
use red_couch.ByteOrder.{ByteOrder, to_be}
use red_couch.Decimal.{to_string, parse_u32, parse_u64}
use red_couch.Hex.{hex_decode}
use red_couch.Protocol.Frame.{Request}
use red_couch.Protocol.Opcode.{Opcode, includes_key}
use red_couch.Protocol.Response.{write_response}
use red_couch.Protocol.Status
use red_couch.Protocol.Wire.{cas_zero}
use red_couch.Redis.{
  Redis, RedisValue, array, static_error, cons, Reply, ok, err, get, gat, make_redis_key,
  cas_counter_key, eval_int, eval_str, eval_lua,
}
use red_couch.Server.Handler.{
  done, failed, call_failed, error_reply, unexpected, Conn, Handled, respond, respond_unless_quiet,
}
use red_couch.Server.Stats.{Stats, plus_one}

abbrev pub count_hit : Stats → Stats
count_hit s = record s { get_hits = plus_one s.get_hits }

abbrev pub count_miss : Stats → Stats
count_miss s = record s { get_misses = plus_one s.get_misses }

module _ ⦃bo : ByteOrder⦄ {r : Redis} where
  -- the response with value, flags and CAS
  unfoldable pub write_hit :
      Opcode → Request → RedisValue → RedisValue → RedisValue → Conn r → Handled r
  write_hit opcode req hex flags cas c =
      let value_bytes = hex_decode (eval_str r hex) in
      let flags_number = unwrap_or (parse_u32 (eval_str r flags)) 0 in
      let cas_number = unwrap_or (parse_u64 (eval_str r cas)) 0 in
      let key_part = if includes_key opcode then req.key else [] in
      (
        done,
        record c {
          out =
              write_response c.out opcode
                (record { status = Status.ok; opaque = req.hdr.opaque; cas = cas_number })
                (to_be 4 flags_number) key_part value_bytes;
        },
      )

  unfoldable pub get_reply : Opcode → Request → Reply → Conn r → Handled r
  unfolding write_hit
  get_reply opcode req (err e) c = (failed (call_failed e), c)
  get_reply opcode req (ok (static_error e)) c = (failed error_reply, c)
  get_reply opcode req (ok (array (cons status (cons hex (cons flags (cons cas _)))))) c =
      if int_eq (eval_int status) (minus 1)
      then respond_unless_quiet opcode Status.nf req cas_zero []
          (record c { stats = count_miss c.stats })
      else write_hit opcode req hex flags cas (record c { stats = count_hit c.stats })
  get_reply opcode req _ c = (failed unexpected, c)

  unfoldable pub op_get : Opcode → Request → Conn r → Handled r
  unfolding get_reply
  op_get opcode req c =
      let stats' = record (c.stats) { cmd_get = plus_one c.stats.cmd_get } in
      let (reply, db') = eval_lua r get (codes "1" ∷ make_redis_key req.key ∷ []) c.db in
      get_reply opcode req reply (record c { db = db'; stats = stats' })

  unfoldable pub gat_reply : Opcode → Request → Reply → Conn r → Handled r
  unfolding write_hit
  gat_reply opcode req (err e) c = (failed (call_failed e), c)
  gat_reply opcode req (ok (static_error e)) c = (failed error_reply, c)
  gat_reply opcode req (ok (array (cons status (cons hex (cons flags (cons cas _)))))) c =
      if int_eq (eval_int status) (minus 1)
      then respond_unless_quiet opcode Status.nf req cas_zero [] c
      else write_hit opcode req hex flags cas c
  gat_reply opcode req _ c = (failed unexpected, c)

  unfoldable pub op_gat : Opcode → Request → Conn r → Handled r
  unfolding gat_reply
  op_gat opcode req c =
      let stats' = record (c.stats) {
        cmd_get = plus_one c.stats.cmd_get;
        cmd_touch = plus_one c.stats.cmd_touch;
      } in
      let c' = record c { stats = stats' } in
      let expiry = bo.read_u32 (slice 0 4 req.extras) in
      let (reply, db') =
        eval_lua r gat
          (codes "2" ∷ make_redis_key req.key ∷ cas_counter_key ∷ to_string expiry ∷ []) c.db in
      if not (length req.extras == 4)
      then respond opcode Status.args req cas_zero [] c'
      else gat_reply opcode req reply (record c' { db = db' })
