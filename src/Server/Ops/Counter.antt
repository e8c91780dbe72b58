-- ===== src/Server/Ops/Counter.antt =====
-- `op_counter` of src/lib.rs: INCREMENT, DECREMENT and their quiet variants.
use red_couch.Base.{
  ℕ, zero, suc, pos, negsuc, true, false, not, ◌==◌, Bool, [], ◌∷◌, Bytes, codes, length, slice, ℤ,
  unwrap_or, if◌then◌else◌,
}
use red_couch.ByteOrder.{ByteOrder, to_be}
use red_couch.Decimal.{to_string, parse_u64}
use red_couch.Protocol.Frame.{Request}
use red_couch.Protocol.Opcode
use red_couch.Protocol.Opcode.{Opcode, is_quiet, includes_key}
use red_couch.Protocol.Response.{write_response}
use red_couch.Protocol.Status
use red_couch.Protocol.Wire.{cas_zero}
use red_couch.Redis.{
  Redis, array, static_error, cons, Reply, ok, err, counter, make_redis_key, cas_counter_key,
  eval_int, eval_str, eval_lua,
}
use red_couch.Server.Handler.{
  done, failed, call_failed, error_reply, unexpected, unknown_status, Conn, Handled, respond,
}
use red_couch.Server.Stats.{Stats, plus_one}

unfoldable pub is_decrement : Opcode → Bool
is_decrement Opcode.decrement = true
is_decrement _ = false

unfoldable pub is_increment : Opcode → Bool
is_increment Opcode.increment = true
is_increment _ = false

abbrev pub count_hit : Bool → Stats → Stats
count_hit true s = record s { incr_hits = plus_one s.incr_hits }
count_hit false s = record s { decr_hits = plus_one s.decr_hits }

abbrev pub count_miss : Bool → Stats → Stats
count_miss true s = record s { incr_misses = plus_one s.incr_misses }
count_miss false s = record s { decr_misses = plus_one s.decr_misses }

module _ ⦃bo : ByteOrder⦄ {r : Redis} where
  -- the response with the counter's value
  unfoldable pub write_counter : Opcode → Request → ℕ → ℕ → Conn r → Handled r
  write_counter opcode req counter_val new_cas c = (
    done,
    record c {
      out =
          write_response c.out opcode
            (record { status = Status.ok; opaque = req.hdr.opaque; cas = new_cas }) [] []
            (to_be 8 counter_val);
    },
  )

  unfoldable pub counter_status : Opcode → Request → ℤ → Bytes → ℕ → Conn r → Handled r
  unfolding is_increment write_counter
  counter_status opcode req (pos zero) value new_cas c =
      let counter_val = unwrap_or (parse_u64 value) 0 in
      let c' = record c { stats = count_hit (is_increment (Opcode.base opcode)) c.stats } in
      if is_quiet opcode then (done, c') else write_counter opcode req counter_val new_cas c'
  counter_status opcode req (negsuc zero) value new_cas c =
      respond opcode Status.nf req cas_zero []
        (record c { stats = count_miss (is_increment (Opcode.base opcode)) c.stats })
  counter_status opcode req (negsuc (suc (suc zero))) value new_cas c =
      respond opcode Status.args req cas_zero (codes "Non-numeric value") c
  counter_status opcode req _ value new_cas c = (failed unknown_status, c)

  unfoldable pub counter_reply : Opcode → Request → Reply → Conn r → Handled r
  unfolding counter_status
  counter_reply opcode req (err e) c = (failed (call_failed e), c)
  counter_reply opcode req (ok (static_error e)) c = (failed error_reply, c)
  counter_reply opcode req (ok (array (cons status (cons value (cons cas _))))) c =
      counter_status opcode req (eval_int status) (eval_str r value)
        (unwrap_or (parse_u64 (eval_str r cas)) 0) c
  counter_reply opcode req _ c = (failed unexpected, c)

  unfoldable pub op_counter : Opcode → Request → Conn r → Handled r
  unfolding counter_reply is_decrement
  op_counter opcode req c =
      let delta = bo.read_u64 (slice 0 8 req.extras) in
      let initial = bo.read_u64 (slice 8 16 req.extras) in
      let expiry = bo.read_u32 (slice 16 20 req.extras) in
      let is_decr = if is_decrement (Opcode.base opcode) then codes "1" else codes "0" in
      let args =
        codes "2"
        ∷ make_redis_key req.key
        ∷ cas_counter_key
        ∷ to_string delta
        ∷ is_decr
        ∷ to_string initial
        ∷ to_string expiry
        ∷ [] in
      let (reply, db') = eval_lua r counter args c.db in
      if not (length req.extras == 20)
      then respond opcode Status.args req cas_zero [] c
      else counter_reply opcode req reply (record c { db = db' })
