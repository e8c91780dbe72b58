-- ===== src/Ascii/Handlers/Change.antt =====
-- `ascii_delete`, `ascii_counter`, `ascii_touch` and `ascii_flush` of src/ascii.rs.
use red_couch.Base.{
  ℕ, zero, suc, Bool, true, false, [], ◌∷◌, Bytes, codes, if◌then◌else◌, ℤ, pos, negsuc,
}
use red_couch.Decimal.{to_string}
use red_couch.Ascii.Handlers.{server_error, non_numeric, tell_unless}
use red_couch.Redis.{
  Redis, integer, array, static_error, cons, Reply, ok, err, del, counter, touch, flush,
  make_redis_key, cas_counter_key, eval_int, eval_str, eval_lua,
}
use red_couch.Server.Handler.{call_failed, failed, Conn, Handled}
use red_couch.Server.Stats.{Stats, plus_one}

-- the counters of a count that changed, and of one that is missing
unfoldable pub count_changed : Bool → Stats → Stats
count_changed true s = record s { decr_hits = plus_one s.decr_hits }
count_changed false s = record s { incr_hits = plus_one s.incr_hits }

unfoldable pub count_missing : Bool → Stats → Stats
count_missing true s = record s { decr_misses = plus_one s.decr_misses }
count_missing false s = record s { incr_misses = plus_one s.incr_misses }

module _ {r : Redis} where
  unfoldable pub delete_reply : Bool → Reply → Conn r → Handled r
  delete_reply noreply (err e) c = (failed (call_failed e), c)
  delete_reply noreply (ok (static_error e)) c = tell_unless noreply server_error c
  delete_reply noreply (ok (integer (pos (suc n)))) c =
      tell_unless noreply (codes "DELETED")
        (record c { stats = record (c.stats) { delete_hits = plus_one c.stats.delete_hits } })
  delete_reply noreply (ok (integer _)) c =
      tell_unless noreply (codes "NOT_FOUND")
        (record c { stats = record (c.stats) { delete_misses = plus_one c.stats.delete_misses } })
  delete_reply noreply _ c = tell_unless noreply server_error c

  unfoldable pub ascii_delete : Bytes → Bool → Conn r → Handled r
  unfolding delete_reply
  ascii_delete key noreply c =
      let (reply, db') = r.call (del (make_redis_key key)) c.db in
      delete_reply noreply reply (record c { db = db' })

  unfoldable pub counter_status : Bool → Bool → ℤ → Bytes → Conn r → Handled r
  unfolding count_changed count_missing
  counter_status is_decr noreply (pos zero) value c =
      tell_unless noreply value (record c { stats = count_changed is_decr c.stats })
  counter_status is_decr noreply (negsuc zero) value c =
      tell_unless noreply (codes "NOT_FOUND") (record c { stats = count_missing is_decr c.stats })
  counter_status is_decr noreply (negsuc (suc (suc zero))) value c =
      tell_unless noreply non_numeric c
  counter_status is_decr noreply _ value c = tell_unless noreply server_error c

  unfoldable pub counter_reply : Bool → Bool → Reply → Conn r → Handled r
  unfolding counter_status
  counter_reply is_decr noreply (err e) c = (failed (call_failed e), c)
  counter_reply is_decr noreply (ok (static_error e)) c = tell_unless noreply server_error c
  counter_reply is_decr noreply (ok (array (cons status (cons value (cons cas _))))) c =
      counter_status is_decr noreply (eval_int status) (eval_str r value) c
  counter_reply is_decr noreply _ c = tell_unless noreply server_error c

  unfoldable pub ascii_counter : Bool → Bytes → ℕ → Bool → Conn r → Handled r
  unfolding counter_reply
  ascii_counter is_decr key delta noreply c =
      let (reply, db') =
        eval_lua r counter
          (codes "2"
            ∷ make_redis_key key
            ∷ cas_counter_key
            ∷ to_string delta
            ∷ (if is_decr then codes "1" else codes "0")
            ∷ codes "0"
            ∷ codes "4294967295"
            ∷ [])
          c.db in
      counter_reply is_decr noreply reply (record c { db = db' })

  unfoldable pub touch_status : Bool → ℤ → Conn r → Handled r
  touch_status noreply (pos zero) c = tell_unless noreply (codes "TOUCHED") c
  touch_status noreply _ c = tell_unless noreply (codes "NOT_FOUND") c

  unfoldable pub touch_reply : Bool → Reply → Conn r → Handled r
  unfolding touch_status
  touch_reply noreply (err e) c = (failed (call_failed e), c)
  touch_reply noreply (ok (static_error e)) c = tell_unless noreply server_error c
  touch_reply noreply (ok (array (cons status _))) c = touch_status noreply (eval_int status) c
  touch_reply noreply _ c = tell_unless noreply server_error c

  unfoldable pub ascii_touch : Bytes → ℕ → Bool → Conn r → Handled r
  unfolding touch_reply
  ascii_touch key exptime noreply c =
      let stats' = record (c.stats) { cmd_touch = plus_one c.stats.cmd_touch } in
      let (reply, db') =
        eval_lua r touch (codes "2" ∷ make_redis_key key ∷ cas_counter_key ∷ to_string exptime ∷ [])
          c.db in
      touch_reply noreply reply (record c { db = db'; stats = stats' })

  -- an error reply of the server is taken for success
  unfoldable pub flush_reply : Bool → Reply → Conn r → Handled r
  flush_reply noreply (err e) c = (failed (call_failed e), c)
  flush_reply noreply (ok _) c = tell_unless noreply (codes "OK") c

  unfoldable pub ascii_flush : Bool → Conn r → Handled r
  unfolding flush_reply
  ascii_flush noreply c =
      let stats' = record (c.stats) { cmd_flush = plus_one c.stats.cmd_flush } in
      let (reply, db') = eval_lua r flush (codes "0" ∷ []) c.db in
      flush_reply noreply reply (record c { db = db'; stats = stats' })
