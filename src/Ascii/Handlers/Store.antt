-- ===== src/Ascii/Handlers/Store.antt =====
-- `ascii_store` and `ascii_append_prepend` of src/ascii.rs.
use red_couch.Base.{
  ℕ, zero, suc, Bool, not, [], ◌∷◌, Bytes, codes, ◌==◌, if◌then◌else◌, ℤ, pos, negsuc,
}
use red_couch.Decimal.{to_string}
use red_couch.Ascii.Command.{StoreOp, set, add, replace}
use red_couch.Ascii.Handlers.{server_error, tell_unless}
use red_couch.Redis.{
  Redis, array, static_error, cons, Reply, ok, err, store, append, prepend, make_redis_key,
  cas_counter_key, eval_int, eval_lua,
}
use red_couch.Server.Handler.{call_failed, failed, Conn, Handled}
use red_couch.Server.Stats.{Stats, plus_one}

pub record StoreParams : Type 0 where
  pub op : StoreOp
  pub flags : ℕ
  pub exptime : ℕ
  pub cas : ℕ
  pub noreply : Bool

unfoldable pub op_name : StoreOp → Bytes
op_name set = codes "set"
op_name add = codes "add"
op_name replace = codes "replace"

-- a counter of CAS operations, for those only
abbrev count_if : Bool → Stats → Stats → Stats
count_if is_cas_op counted s = if is_cas_op then counted else s

module _ {r : Redis} where
  unfoldable pub store_status : StoreParams → ℤ → Conn r → Handled r
  store_status p (pos zero) c = tell_unless p.noreply (codes "STORED") (record c {
    stats =
        count_if (not (p.cas == 0)) (record (c.stats) { cas_hits = plus_one c.stats.cas_hits })
          c.stats;
  })
  store_status p (negsuc zero) c =
      tell_unless p.noreply (if not (p.cas == 0) then codes "NOT_FOUND" else codes "NOT_STORED")
        (record c {
          stats =
              count_if (not (p.cas == 0))
                (record (c.stats) { cas_misses = plus_one c.stats.cas_misses }) c.stats;
        })
  store_status p (negsuc (suc zero)) c =
      tell_unless p.noreply (if not (p.cas == 0) then codes "EXISTS" else codes "NOT_STORED")
        (record c {
          stats =
              count_if (not (p.cas == 0))
                (record (c.stats) { cas_badval = plus_one c.stats.cas_badval }) c.stats;
        })
  store_status p _ c = tell_unless p.noreply server_error c

  unfoldable pub store_reply : StoreParams → Reply → Conn r → Handled r
  unfolding store_status
  store_reply p (err e) c = (failed (call_failed e), c)
  store_reply p (ok (static_error e)) c = tell_unless p.noreply server_error c
  store_reply p (ok (array (cons status (cons cas _)))) c = store_status p (eval_int status) c
  store_reply p _ c = tell_unless p.noreply server_error c

  unfoldable pub ascii_store : StoreParams → (key value : Bytes) → Conn r → Handled r
  unfolding store_reply op_name
  ascii_store p key value c =
      let stats' = record (c.stats) { cmd_set = plus_one c.stats.cmd_set } in
      let (reply, db') =
        eval_lua r store
          (codes "2"
            ∷ make_redis_key key
            ∷ cas_counter_key
            ∷ op_name p.op
            ∷ value
            ∷ to_string p.flags
            ∷ to_string p.cas
            ∷ to_string p.exptime
            ∷ [])
          c.db in
      store_reply p reply (record c { db = db'; stats = stats' })

  unfoldable pub concat_status : Bool → ℤ → Conn r → Handled r
  concat_status noreply (pos zero) c = tell_unless noreply (codes "STORED") c
  concat_status noreply (negsuc (suc (suc (suc (suc zero))))) c =
      tell_unless noreply (codes "NOT_STORED") c
  concat_status noreply _ c = tell_unless noreply server_error c

  unfoldable pub concat_reply : Bool → Reply → Conn r → Handled r
  unfolding concat_status
  concat_reply noreply (err e) c = (failed (call_failed e), c)
  concat_reply noreply (ok (static_error e)) c = tell_unless noreply server_error c
  concat_reply noreply (ok (array (cons status _))) c = concat_status noreply (eval_int status) c
  concat_reply noreply _ c = tell_unless noreply server_error c

  unfoldable pub ascii_append_prepend : Bool → (key value : Bytes) → Bool → Conn r → Handled r
  unfolding concat_reply
  ascii_append_prepend is_prepend key value noreply c =
      let stats' = record (c.stats) { cmd_set = plus_one c.stats.cmd_set } in
      let (reply, db') =
        eval_lua r (if is_prepend then prepend else append)
          (codes "2" ∷ make_redis_key key ∷ cas_counter_key ∷ value ∷ codes "0" ∷ []) c.db in
      concat_reply noreply reply (record c { db = db'; stats = stats' })
