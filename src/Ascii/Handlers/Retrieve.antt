-- ===== src/Ascii/Handlers/Retrieve.antt =====
-- `ascii_retrieval` of src/ascii.rs.
pub mod Listed
use red_couch.Base.{
  ℕ, Bool, true, false, Option, List, [], ◌∷◌, ◌++◌, Bytes, codes, length, if◌then◌else◌, int_eq,
  minus, unwrap_or,
}
use red_couch.Decimal.{to_string}
use red_couch.Hex.{hex_decode}
use red_couch.Ascii.Command.{RetrievalOp, gets, gat, gats}
use red_couch.Ascii.Handlers.{tell}
use red_couch.Redis.{
  Redis, RedisValue, array, static_error, cons, Reply, ok, err, Script, make_redis_key,
  cas_counter_key, eval_int, eval_str, eval_lua,
}
use red_couch.Server.Handler.{call_failed, Br, done, failed, Conn, Handled}
use red_couch.Server.Stats.{plus_one}

unfoldable pub include_cas : RetrievalOp → Bool
include_cas gets = true
include_cas gats = true
include_cas _ = false

unfoldable pub is_gat : RetrievalOp → Bool
is_gat gat = true
is_gat gats = true
is_gat _ = false

-- `VALUE <key> <flags> <bytes> [<cas>]\r\n<data>\r\n`
unfoldable pub value_block : (with_cas : Bool) → (key flags value cas : Bytes) → Bytes
value_block with_cas key flags value cas =
    codes "VALUE "
    ++ (key
        ++ (codes " "
            ++ (flags
                ++ (codes " "
                    ++ (to_string (length value)
                        ++ ((if with_cas then codes " " ++ cas else [])
                            ++ (codes "\r\n" ++ (value ++ codes "\r\n"))))))))

module _ {r : Redis} where
  -- the fields of a hit
  unfoldable pub write_value : Bool → Bytes → RedisValue → RedisValue → RedisValue → Conn r → Conn r
  unfolding value_block
  write_value with_cas key hex flags cas c = record c {
    out =
        c.out
        ++ value_block with_cas key (eval_str r flags) (hex_decode (eval_str r hex))
            (eval_str r cas);
    stats = record (c.stats) { get_hits = plus_one c.stats.get_hits };
  }

  -- the reply for one key
  unfoldable pub retrieval_reply : Bool → Bytes → Reply → Conn r → Handled r
  unfolding write_value
  retrieval_reply with_cas key (err e) c = (failed (call_failed e), c)
  retrieval_reply with_cas key (ok (static_error e)) c = (done, c)
  retrieval_reply with_cas key (ok (array (cons status (cons hex (cons flags (cons cas _)))))) c =
      if int_eq (eval_int status) (minus 1)
      then (
        done,
        record c { stats = record (c.stats) { get_misses = plus_one c.stats.get_misses } },
      )
      else (done, write_value with_cas key hex flags cas c)
  retrieval_reply with_cas key _ c = (done, c)

  -- the script for one key, with its arguments
  unfoldable pub retrieve_one : RetrievalOp → Option ℕ → Bytes → Conn r → Handled r
  unfolding include_cas is_gat retrieval_reply
  retrieve_one cmd exptime key c =
      let counted = record (c.stats) { cmd_get = plus_one c.stats.cmd_get } in
      let stats' =
        if is_gat cmd then record counted { cmd_touch = plus_one counted.cmd_touch } else counted in
      let rk = make_redis_key key in
      let (reply, db') =
        if is_gat cmd
        then eval_lua r Script.gat
            (codes "2" ∷ rk ∷ cas_counter_key ∷ to_string (unwrap_or exptime 0) ∷ []) c.db
        else eval_lua r Script.get (codes "1" ∷ rk ∷ []) c.db in
      retrieval_reply (include_cas cmd) key reply (record c { db = db'; stats = stats' })

  -- `?` in the loop
  unfoldable pub next_key : Handled r → (Conn r → Handled r) → Handled r
  next_key (done, c) next = next c
  next_key (failed e, c) next = (failed e, c)

  unfoldable pub ascii_retrieval : RetrievalOp → Option ℕ → List Bytes → Conn r → Handled r
  unfolding retrieve_one next_key
  ascii_retrieval cmd exptime [] c = tell (codes "END") c
  ascii_retrieval cmd exptime (key ∷ keys) c =
      next_key (retrieve_one cmd exptime key c) (ascii_retrieval cmd exptime keys)
