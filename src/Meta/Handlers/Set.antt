-- ===== src/Meta/Handlers/Set.antt =====
-- `meta_set` of src/ascii.rs.
use red_couch.Base.{
  ℕ, zero, suc, Bool, not, ◌||◌, List, [], ◌∷◌, ◌++◌, Bytes, codes, bytes_eq, if◌then◌else◌, ℤ, pos,
  negsuc, unwrap_or,
}
use red_couch.Ascii.Handlers.{server_error, tell_unless}
use red_couch.Meta.Flags.{MetaFlag, has_flag, get_flag_token, is_word}
use red_couch.Meta.Handlers.{echo_unless}
use red_couch.Redis.{
  Redis, array, static_error, cons, Reply, ok, err, store, append, prepend, make_redis_key,
  cas_counter_key, eval_int, eval_str, eval_lua,
}
use red_couch.Server.Handler.{call_failed, failed, Conn, Handled}
use red_couch.Server.Stats.{Stats, plus_one}

-- the text of a flag's token, or another
unfoldable pub token_or : List MetaFlag → ℕ → Bytes → Bytes
token_or flags ch default = unwrap_or (get_flag_token flags ch) default

-- `HD`, with the CAS value if it is asked for or one was compared
unfoldable pub stored_line : List MetaFlag → (cas new_cas : Bytes) → Bytes
stored_line flags cas new_cas =
    codes "HD"
    ++ (if has_flag flags b'c' || not (bytes_eq cas (codes "0")) then codes " c" ++ new_cas else [])

abbrev unless_quiet : Bool → Stats → Stats → Stats
unless_quiet quiet counted s = if quiet then s else counted

-- the mode as the script names it
unfoldable pub set_op_name : Bytes → Bytes
set_op_name mode =
    if is_word mode "E"
    then codes "add"
    else if is_word mode "R"
    then codes "replace"
    else codes "set"

module _ {r : Redis} where
  unfoldable pub meta_concat_status :
      Bool → List MetaFlag → (key cas : Bytes) → ℤ → Bytes → Conn r → Handled r
  unfolding stored_line
  meta_concat_status quiet flags key cas (pos zero) new_cas c =
      echo_unless quiet (stored_line flags cas new_cas) flags key c
  meta_concat_status quiet flags key cas (negsuc (suc (suc (suc (suc zero))))) new_cas c =
      echo_unless quiet (codes "NS") flags key c
  meta_concat_status quiet flags key cas (negsuc (suc zero)) new_cas c =
      echo_unless quiet (codes "EX") flags key c
  meta_concat_status quiet flags key cas _ new_cas c = tell_unless quiet server_error c

  unfoldable pub meta_concat_reply :
      Bool → List MetaFlag → (key cas : Bytes) → Reply → Conn r → Handled r
  unfolding meta_concat_status
  meta_concat_reply quiet flags key cas (err e) c = (failed (call_failed e), c)
  meta_concat_reply quiet flags key cas (ok (static_error e)) c = tell_unless quiet server_error c
  meta_concat_reply quiet flags key cas (ok (array (cons status (cons new_cas _)))) c =
      meta_concat_status quiet flags key cas (eval_int status) (eval_str r new_cas) c
  meta_concat_reply quiet flags key cas _ c = tell_unless quiet server_error c

  -- modes A and P
  unfoldable pub meta_concat :
      Bool → Bool → (key data_bytes cas : Bytes) → List MetaFlag → Conn r → Handled r
  unfolding meta_concat_reply
  meta_concat is_prepend quiet key data_bytes cas flags c =
      let (reply, db') =
        eval_lua r (if is_prepend then prepend else append)
          (codes "2" ∷ make_redis_key key ∷ cas_counter_key ∷ data_bytes ∷ cas ∷ []) c.db in
      meta_concat_reply quiet flags key cas reply (record c { db = db' })

  -- A quiet command counts nothing.
  unfoldable pub meta_store_status :
      Bool → List MetaFlag → (key cas : Bytes) → ℤ → Bytes → Conn r → Handled r
  unfolding stored_line
  meta_store_status quiet flags key cas (pos zero) new_cas c =
      echo_unless quiet (stored_line flags cas new_cas) flags key (record c {
        stats =
            unless_quiet quiet (record (c.stats) { cas_hits = plus_one c.stats.cas_hits }) c.stats;
      })
  meta_store_status quiet flags key cas (negsuc zero) new_cas c =
      echo_unless quiet (codes "NF") flags key c
  meta_store_status quiet flags key cas (negsuc (suc zero)) new_cas c =
      if not (bytes_eq cas (codes "0"))
      then echo_unless quiet (codes "EX") flags key (record c {
        stats =
            unless_quiet quiet (record (c.stats) { cas_badval = plus_one c.stats.cas_badval })
              c.stats;
      })
      else echo_unless quiet (codes "NS") flags key c
  meta_store_status quiet flags key cas _ new_cas c = tell_unless quiet server_error c

  unfoldable pub meta_store_reply :
      Bool → List MetaFlag → (key cas : Bytes) → Reply → Conn r → Handled r
  unfolding meta_store_status
  meta_store_reply quiet flags key cas (err e) c = (failed (call_failed e), c)
  meta_store_reply quiet flags key cas (ok (static_error e)) c = tell_unless quiet server_error c
  meta_store_reply quiet flags key cas (ok (array (cons status (cons new_cas _)))) c =
      meta_store_status quiet flags key cas (eval_int status) (eval_str r new_cas) c
  meta_store_reply quiet flags key cas _ c = tell_unless quiet server_error c

  -- modes S, E and R
  unfoldable pub meta_store :
      Bytes → Bool → (key data_bytes cas : Bytes) → List MetaFlag → Conn r → Handled r
  unfolding meta_store_reply set_op_name token_or
  meta_store mode quiet key data_bytes cas flags c =
      let (reply, db') =
        eval_lua r store
          (codes "2"
            ∷ make_redis_key key
            ∷ cas_counter_key
            ∷ set_op_name mode
            ∷ data_bytes
            ∷ token_or flags b'F' (codes "0")
            ∷ cas
            ∷ token_or flags b'T' (codes "0")
            ∷ [])
          c.db in
      meta_store_reply quiet flags key cas reply (record c { db = db' })

  unfoldable pub meta_set : (key data_bytes : Bytes) → List MetaFlag → Conn r → Handled r
  unfolding meta_concat meta_store token_or
  meta_set key data_bytes flags c =
      let c' = record c { stats = record (c.stats) { cmd_set = plus_one c.stats.cmd_set } } in
      let quiet = has_flag flags b'q' in
      let mode = token_or flags b'M' (codes "S") in
      let cas = token_or flags b'C' (codes "0") in
      if is_word mode "A" || is_word mode "P"
      then meta_concat (is_word mode "P") quiet key data_bytes cas flags c'
      else if is_word mode "S" || is_word mode "E" || is_word mode "R"
      then meta_store mode quiet key data_bytes cas flags c'
      else tell_unless quiet (codes "CLIENT_ERROR unsupported ms mode") c'
