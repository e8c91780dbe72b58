-- ===== src/Meta/Handlers/Delete.antt =====
-- `meta_delete` of src/ascii.rs.
use red_couch.Base.{
  zero, suc, Bool, true, false, List, [], ◌∷◌, Bytes, codes, bytes_eq, if◌then◌else◌, ℤ, pos,
  negsuc,
}
use red_couch.Ascii.Handlers.{server_error, tell_unless}
use red_couch.Meta.Flags.{MetaFlag, has_flag}
use red_couch.Meta.Handlers.{echo_unless}
use red_couch.Meta.Handlers.Set.{token_or}
use red_couch.Redis.{
  Redis, integer, static_error, Reply, ok, err, Script, del, make_redis_key, eval_lua,
}
use red_couch.Server.Handler.{call_failed, failed, Conn, Handled}
use red_couch.Server.Stats.{plus_one}

-- the count of DEL, as a status of the script
unfoldable pub delete_status_of : Bool → ℤ → ℤ
delete_status_of false n = n
delete_status_of true (pos (suc n)) = pos zero
delete_status_of true _ = negsuc zero

module _ {r : Redis} where
  unfoldable pub meta_delete_status : Bool → List MetaFlag → Bytes → ℤ → Conn r → Handled r
  meta_delete_status quiet flags key (pos zero) c =
      echo_unless quiet (codes "HD") flags key
        (record c { stats = record (c.stats) { delete_hits = plus_one c.stats.delete_hits } })
  meta_delete_status quiet flags key (negsuc zero) c =
      echo_unless quiet (codes "NF") flags key
        (record c { stats = record (c.stats) { delete_misses = plus_one c.stats.delete_misses } })
  meta_delete_status quiet flags key (negsuc (suc zero)) c =
      echo_unless quiet (codes "EX") flags key c
  meta_delete_status quiet flags key _ c = tell_unless quiet server_error c

  unfoldable pub meta_delete_reply :
      Bool → Bool → List MetaFlag → Bytes → Reply → Conn r → Handled r
  unfolding meta_delete_status delete_status_of
  meta_delete_reply is_direct_del quiet flags key (err e) c = (failed (call_failed e), c)
  meta_delete_reply is_direct_del quiet flags key (ok (static_error e)) c =
      tell_unless quiet server_error c
  meta_delete_reply is_direct_del quiet flags key (ok (integer n)) c =
      meta_delete_status quiet flags key (delete_status_of is_direct_del n) c
  meta_delete_reply is_direct_del quiet flags key _ c = tell_unless quiet server_error c

  unfoldable pub meta_delete : Bytes → List MetaFlag → Conn r → Handled r
  unfolding meta_delete_reply
  meta_delete key flags c =
      let rk = make_redis_key key in
      let cas = token_or flags b'C' (codes "0") in
      let is_direct_del = bytes_eq cas (codes "0") in
      let (reply, db') =
        if is_direct_del
        then r.call (del rk) c.db
        else eval_lua r Script.delete (codes "1" ∷ rk ∷ cas ∷ []) c.db in
      meta_delete_reply is_direct_del (has_flag flags b'q') flags key reply (record c { db = db' })
