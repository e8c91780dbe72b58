-- ===== src/Meta/Handlers/Count.antt =====
-- `meta_arithmetic` of src/ascii.rs.
use red_couch.Base.{
  zero, suc, Bool, List, [], ◌∷◌, ◌++◌, Bytes, codes, bytes_eq, length, if◌then◌else◌, int_eq, ℤ,
  pos, negsuc,
}
use red_couch.Decimal.{to_string}
use red_couch.Ascii.Handlers.{server_error, non_numeric, tell_unless}
use red_couch.Ascii.Handlers.Change.{count_changed, count_missing}
use red_couch.Meta.Flags.{MetaFlag, has_flag}
use red_couch.Meta.Handlers.{echoed, echo_unless}
use red_couch.Meta.Handlers.Get.{metadata}
use red_couch.Meta.Handlers.Set.{token_or}
use red_couch.Redis.{
  Redis, array, static_error, cons, Reply, ok, err, counter, make_redis_key, cas_counter_key,
  eval_int, eval_str, eval_lua,
}
use red_couch.Server.Handler.{call_failed, done, failed, Conn, Handled}

module _ {r : Redis} where
  -- the line of a count, with the count behind it if it is wanted
  unfoldable pub write_count : List MetaFlag → (key value cas : Bytes) → Conn r → Conn r
  unfolding metadata
  write_count flags key value cas c =
      let want_value = has_flag flags b'v' in
      let head = if want_value then codes "VA " ++ to_string (length value) else codes "HD" in
      let c' = echoed (head ++ metadata flags b'c' cas) flags key c in
      if want_value then record c' { out = c'.out ++ (value ++ codes "\r\n") } else c'

  unfoldable pub meta_counter_status :
      Bool → List MetaFlag → (key : Bytes) → ℤ → (value cas : Bytes) → Conn r → Handled r
  unfolding write_count
  meta_counter_status quiet flags key (pos zero) value cas c =
      (done, if quiet then c else write_count flags key value cas c)
  meta_counter_status quiet flags key (negsuc zero) value cas c =
      echo_unless quiet (codes "NF") flags key c
  meta_counter_status quiet flags key (negsuc (suc (suc zero))) value cas c =
      tell_unless quiet non_numeric c
  meta_counter_status quiet flags key _ value cas c = tell_unless quiet server_error c

  unfoldable pub meta_counter_reply :
      Bool → Bool → List MetaFlag → Bytes → Reply → Conn r → Handled r
  unfolding meta_counter_status
  meta_counter_reply is_decr quiet flags key (err e) c = (failed (call_failed e), c)
  meta_counter_reply is_decr quiet flags key (ok (static_error e)) c =
      tell_unless quiet server_error c
  meta_counter_reply is_decr quiet flags key (ok (array (cons status (cons value (cons cas _)))))
        c =
      let counted =
        if int_eq (eval_int status) (pos 0)
        then count_changed is_decr c.stats
        else count_missing is_decr c.stats in
      meta_counter_status quiet flags key (eval_int status) (eval_str r value) (eval_str r cas)
        (record c { stats = counted })
  meta_counter_reply is_decr quiet flags key _ c = tell_unless quiet server_error c

  unfoldable pub meta_arithmetic : Bytes → List MetaFlag → Conn r → Handled r
  unfolding meta_counter_reply
  meta_arithmetic key flags c =
      let is_decr = bytes_eq (token_or flags b'M' (codes "I")) (codes "D") in
      let (reply, db') =
        eval_lua r counter
          (codes "2"
            ∷ make_redis_key key
            ∷ cas_counter_key
            ∷ token_or flags b'D' (codes "1")
            ∷ (if is_decr then codes "1" else codes "0")
            ∷ token_or flags b'J' (codes "0")
            ∷ token_or flags b'N' (codes "4294967295")
            ∷ [])
          c.db in
      meta_counter_reply is_decr (has_flag flags b'q') flags key reply (record c { db = db' })
