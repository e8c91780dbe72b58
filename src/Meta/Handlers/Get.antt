-- ===== src/Meta/Handlers/Get.antt =====
-- `meta_noop` and `meta_get` of src/ascii.rs.
use red_couch.Base.{
  ℕ, suc, Option, none, some, List, [], ◌∷◌, ◌++◌, Bytes, codes, length, if◌then◌else◌, int_eq,
  minus, ℤ, pos, negsuc,
}
use red_couch.Decimal.{to_string}
use red_couch.Hex.{hex_decode}
use red_couch.Ascii.Handlers.{server_error, tell}
use red_couch.Meta.Flags.{MetaFlag, has_flag, get_flag_token}
use red_couch.Meta.Handlers.{echoed, echo_unless}
use red_couch.Redis.{
  Redis, array, static_error, cons, Reply, ok, err, touch, Script, make_redis_key, cas_counter_key,
  eval_int, eval_str, eval_lua,
}
use red_couch.Server.Handler.{call_failed, done, failed, Conn, Handled}
use red_couch.Server.Stats.{plus_one}

-- `to_string` of an `i64`
unfoldable pub int_to_string : ℤ → Bytes
int_to_string (pos n) = to_string n
int_to_string (negsuc n) = codes "-" ++ to_string (suc n)

-- a piece of metadata, if its flag is there
unfoldable pub metadata : List MetaFlag → ℕ → Bytes → Bytes
metadata flags ch value = if has_flag flags ch then codes " " ++ (ch ∷ value) else []

-- the opaque token, if there is one
unfoldable pub noop_opaque : Option Bytes → Bytes
noop_opaque none = []
noop_opaque (some opaque) = codes " O" ++ opaque

module _ {r : Redis} where
  unfoldable pub meta_noop : List MetaFlag → Conn r → Handled r
  unfolding noop_opaque
  meta_noop flags c = tell (codes "MN" ++ noop_opaque (get_flag_token flags b'O')) c

  -- the line of a hit, with its data behind it if the value is wanted
  unfoldable pub write_meta_hit :
      List MetaFlag → Bytes → (value item_flags cas : Bytes) → (ttl size : ℤ) → Conn r → Conn r
  unfolding metadata int_to_string
  write_meta_hit flags key value item_flags cas ttl size c =
      let want_value = has_flag flags b'v' in
      let head = if want_value then codes "VA " ++ to_string (length value) else codes "HD" in
      let line =
        head
        ++ (metadata flags b'c' cas
            ++ (metadata flags b'f' item_flags
                ++ (metadata flags b's' (int_to_string size)
                    ++ metadata flags b't' (int_to_string ttl)))) in
      let c' = echoed line flags key c in
      if want_value then record c' { out = c'.out ++ (value ++ codes "\r\n") } else c'

  unfoldable pub meta_get_reply : List MetaFlag → Bytes → Reply → Conn r → Handled r
  unfolding write_meta_hit
  meta_get_reply flags key (err e) c = (failed (call_failed e), c)
  meta_get_reply flags key (ok (static_error e)) c = tell server_error c
  meta_get_reply flags key
        (ok (array (cons status (cons hex (cons item_flags (cons cas (cons ttl (cons size _))))))))
        c =
      if int_eq (eval_int status) (minus 1)
      then echo_unless (has_flag flags b'q') (codes "EN") flags key
          (record c { stats = record (c.stats) { get_misses = plus_one c.stats.get_misses } })
      else (
        done,
        write_meta_hit flags key (hex_decode (eval_str r hex)) (eval_str r item_flags)
            (eval_str r cas) (eval_int ttl) (eval_int size)
            (record c { stats = record (c.stats) { get_hits = plus_one c.stats.get_hits } }),
      )
  meta_get_reply flags key _ c = tell server_error c

  -- the call of the script and what follows it
  unfoldable pub get_with_ttl : List MetaFlag → Bytes → Conn r → Handled r
  unfolding meta_get_reply
  get_with_ttl flags key c =
      let (reply, db') = eval_lua r Script.meta_get (codes "1" ∷ make_redis_key key ∷ []) c.db in
      meta_get_reply flags key reply (record c { db = db' })

  -- The reply of the touch is not looked at, unless the call fails.
  unfoldable pub after_touch : List MetaFlag → Bytes → Reply → Conn r → Handled r
  unfolding get_with_ttl
  after_touch flags key (err e) c = (failed (call_failed e), c)
  after_touch flags key (ok _) c = get_with_ttl flags key c

  unfoldable pub touch_first : List MetaFlag → Bytes → Option Bytes → Conn r → Handled r
  unfolding after_touch
  touch_first flags key none c = get_with_ttl flags key c
  touch_first flags key (some ttl) c =
      let (touched, db') =
        eval_lua r touch (codes "2" ∷ make_redis_key key ∷ cas_counter_key ∷ ttl ∷ []) c.db in
      after_touch flags key touched (record c { db = db' })

  unfoldable pub meta_get : Bytes → List MetaFlag → Conn r → Handled r
  unfolding touch_first
  meta_get key flags c =
      touch_first flags key (get_flag_token flags b'T')
        (record c { stats = record (c.stats) { cmd_get = plus_one c.stats.cmd_get } })
