-- ===== src/Redis.antt =====
-- Redis as the module calls it. The server and the `redis-module` crate are no part of the
-- repository: `Redis` is the interface, with a database of an unknown type, and `RedisValue` has
-- the variants of the crate's reply type that the code tells apart. `eval_lua`, `make_redis_key`
-- and the readers of replies are those of src/lib.rs.
pub mod Fallback
use red_couch.Base.{
  ℕ, ℤ, pos, Bool, true, false, Option, none, some, List, [], ◌∷◌, ◌++◌, Bytes, codes, contains,
  if◌then◌else◌,
}

mutual
  pub data RedisValue : Type 0 where
    integer : ℤ → RedisValue
    bulk_string : Bytes → RedisValue
    bulk_redis_string : Bytes → RedisValue
    simple_string : Bytes → RedisValue
    simple_string_static : Bytes → RedisValue
    array : RedisValues → RedisValue
    static_error : Bytes → RedisValue
    -- any other variant
    other_value : RedisValue

  pub data RedisValues : Type 0 where
    nil : RedisValues
    cons : RedisValue → RedisValues → RedisValues

-- `Result<RedisValue, RedisError>`, an error with its message
pub data Reply : Type 0 where
  ok : RedisValue → Reply
  err : Bytes → Reply

-- the static instances of `LuaScript`
pub data Script : Type 0 where
  store get meta_get delete counter touch gat append prepend flush count_items : Script

-- The calls that the code makes. EVAL sends a script's source and EVALSHA its SHA1 digest; here
-- both name the script.
pub data Command : Type 0 where
  evalsha eval : Script → List Bytes → Command
  del incr : Bytes → Command

pub record Redis : Type 1 where
  pub Db : Type 0
  pub call : Command → Db → Reply × Db
  -- `RedisString::to_string_lossy`
  pub to_string_lossy : Bytes → Bytes

abbrev pub key_prefix : Bytes
key_prefix = codes "rc:"

abbrev pub cas_counter_key : Bytes
cas_counter_key = codes "redcouch:sys:cas_counter"

unfoldable pub make_redis_key : Bytes → Bytes
make_redis_key client_key = key_prefix ++ client_key

unfoldable pub is_redis_error : RedisValue → Bool
is_redis_error (static_error e) = true
is_redis_error _ = false

unfoldable pub eval_int : RedisValue → ℤ
eval_int (integer n) = n
eval_int _ = pos 0

-- does the reply say that the script is not in the cache?
unfoldable pub is_noscript : Reply → Bool
is_noscript (ok (static_error e)) = contains e (codes "NOSCRIPT")
is_noscript (ok _) = false
is_noscript (err e) = contains e (codes "NOSCRIPT")

module _ (r : Redis) where
  open r use {Db, call, to_string_lossy}

  unfoldable pub eval_str : RedisValue → Bytes
  eval_str (bulk_string s) = s
  eval_str (bulk_redis_string s) = to_string_lossy s
  eval_str (simple_string s) = s
  eval_str (simple_string_static s) = s
  eval_str _ = []

  unfoldable pub eval_lua : Script → List Bytes → Db → Reply × Db
  unfolding is_noscript
  eval_lua script keys_and_args db =
      let (result, db') = call (evalsha script keys_and_args) db in
      let again = call (eval script keys_and_args) db' in
      if is_noscript result then again else (result, db')
