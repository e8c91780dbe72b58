-- ===== src/Server/Ops/Delete.antt =====
-- `op_delete` and `get_next_cas` of src/lib.rs.
use red_couch.Base.{
  ℕ, zero, suc, pos, negsuc, ◌-◌, ◌%◌, ◌^◌, ◌==◌, [], ◌∷◌, codes, ℤ, if◌then◌else◌,
}
use red_couch.ByteOrder.{ByteOrder}
use red_couch.Decimal.{to_string}
use red_couch.Protocol.Frame.{Request}
use red_couch.Protocol.Opcode.{Opcode, is_quiet}
use red_couch.Protocol.Status
use red_couch.Protocol.Wire.{cas_zero}
use red_couch.Redis.{
  Redis, integer, static_error, Reply, ok, err, delete, make_redis_key, cas_counter_key, eval_lua,
  del, incr,
}
use red_couch.Server.Handler.{
  done, failed, call_failed, error_reply, unexpected, unknown_status, Conn, Handled, respond,
}
use red_couch.Server.Stats.{Stats, plus_one}

abbrev pub count_hit : Stats → Stats
count_hit s = record s { delete_hits = plus_one s.delete_hits }

abbrev pub count_miss : Stats → Stats
count_miss s = record s { delete_misses = plus_one s.delete_misses }

-- `n as u64`
abbrev pub as_u64 : ℤ → ℕ
as_u64 (pos n) = n % 2 ^ 64
as_u64 (negsuc n) = 2 ^ 64 - 1 - n % 2 ^ 64

unfoldable pub next_cas_of : Reply → ℕ
next_cas_of (ok (integer n)) = as_u64 n
next_cas_of _ = 1

unfoldable pub get_next_cas : (r : Redis) → r.Db → ℕ × r.Db
unfolding next_cas_of
get_next_cas r db = let (reply, db') = r.call (incr cas_counter_key) db in (next_cas_of reply, db')

module _ ⦃bo : ByteOrder⦄ {r : Redis} where
  -- the item was deleted: a loud request is answered with the next CAS value
  unfoldable pub deleted : Opcode → Request → Conn r → Handled r
  deleted opcode req c =
      let c' = record c { stats = count_hit c.stats } in
      let (new_cas, db') = get_next_cas r c.db in
      if is_quiet opcode
      then (done, c')
      else respond opcode Status.ok req new_cas [] (record c' { db = db' })

  unfoldable pub not_there : Opcode → Request → Conn r → Handled r
  not_there opcode req c =
      respond opcode Status.nf req cas_zero [] (record c { stats = count_miss c.stats })

  -- the reply of DEL, the number of keys deleted
  unfoldable pub del_reply : Opcode → Request → Reply → Conn r → Handled r
  unfolding deleted not_there
  del_reply opcode req (err e) c = (failed (call_failed e), c)
  del_reply opcode req (ok (static_error e)) c = (failed error_reply, c)
  del_reply opcode req (ok (integer (pos (suc n)))) c = deleted opcode req c
  del_reply opcode req (ok (integer _)) c = not_there opcode req c
  del_reply opcode req _ c = (failed unexpected, c)

  unfoldable pub delete_status : Opcode → Request → ℤ → Conn r → Handled r
  unfolding deleted not_there
  delete_status opcode req (pos zero) c = deleted opcode req c
  delete_status opcode req (negsuc zero) c = not_there opcode req c
  delete_status opcode req (negsuc (suc zero)) c = respond opcode Status.ix req cas_zero [] c
  delete_status opcode req _ c = (failed unknown_status, c)

  -- the reply of the script
  unfoldable pub delete_reply : Opcode → Request → Reply → Conn r → Handled r
  unfolding delete_status
  delete_reply opcode req (err e) c = (failed (call_failed e), c)
  delete_reply opcode req (ok (static_error e)) c = (failed error_reply, c)
  delete_reply opcode req (ok (integer n)) c = delete_status opcode req n c
  delete_reply opcode req _ c = (failed unexpected, c)

  unfoldable pub op_delete : Opcode → Request → Conn r → Handled r
  unfolding del_reply delete_reply
  op_delete opcode req c =
      let rk = make_redis_key req.key in
      let (direct, db1) = r.call (del rk) c.db in
      let (checked, db2) = eval_lua r delete (codes "1" ∷ rk ∷ to_string req.hdr.cas ∷ []) c.db in
      if req.hdr.cas == 0
      then del_reply opcode req direct (record c { db = db1 })
      else delete_reply opcode req checked (record c { db = db2 })
