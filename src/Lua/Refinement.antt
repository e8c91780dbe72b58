-- ===== src/Lua/Refinement.antt =====
-- The scripts of src/lib.rs on a database, against the map of items that they stand for.
use mathlib.Core.Path.{subst}
use red_couch.Base.{ℕ, suc, ◌^◌, ◌<◌, ◌≡◌, ap, ◌∙◌, Bool, true, false, none, some, [], Bytes, pos}
use red_couch.Decimal.{to_string}
use red_couch.Items.{
  Item, Items, Mode, Verdict, done, store_item, delete_item, touch_item, concat_item, count_item,
  count_text, Countable, lies_ahead,
}
use red_couch.Lua.Keyspace.{hash, integer, update, Keyspace, set_fields, no_fields}
use red_couch.Lua.Number.{LuaNumber, IsExact}
use red_couch.Lua.Program.{Outcome, Program, run}
use red_couch.Lua.Program.Step.{update_self}
use red_couch.Lua.Program.View.{seen, seen-run}
use red_couch.Lua.Scripts.{
  lua_store, lua_get, lua_delete, lua_counter, lua_touch, lua_gat, lua_concat,
}
use red_couch.Lua.Scripts.Agrees.{Holds, Agrees, Refines, ends}
use red_couch.Lua.Scripts.Concat.{lua_concat-Refines, extended}
use red_couch.Lua.Scripts.Count.{lua_counter-Refines, told_count, direction}
use red_couch.Lua.Scripts.Read.{lua_get-Holds, lua_get-bare, found}
use red_couch.Lua.Scripts.Remove.{lua_delete-Refines, deleted}
use red_couch.Lua.Scripts.Revise.{
  lua_touch-Refines, lua_touch_past, lua_gat-Refines, touched, got, cas_field,
}
use red_couch.Lua.Scripts.Store.{lua_store-Refines, stored, mode_text}
use red_couch.Redis.{make_redis_key, cas_counter_key}

-- A script on a database ends as the verdict tells, and leaves the items of the specification.
abbrev pub Implements :
    {Db : Type 0} → Keyspace Db → (Verdict → Outcome) → Program → Db → Verdict × Items → Type 0
Implements ks told p db v = Refines told (seen ks (run ks p db)) v

-- LUA_GET on a database that agrees with a map of items tells the value in hexadecimal, the flags and
-- the CAS value of the item at the key, or that there is none, and changes no key.
pub lua_get-found :
    {Db : Type 0} (ks : Keyspace Db) (db : Db) (s : Items)
    → Agrees (ks.entry db) s
    → (key : Bytes)
    → seen ks (run ks (lua_get (make_redis_key key)) db) ≡ (found (s.at key), ks.entry db)
lua_get-found ks db s h key =
    seen-run ks _ db ∙ lua_get-Holds (ks.now db) (ks.entry db) key (s.at key) (h.holds key)

module _ {Db : Type 0} (ks : Keyspace Db) (l : LuaNumber) (exact : IsExact l) (db : Db) (s : Items)
    (h : Agrees (ks.entry db) s) (early : ks.now db < 2 ^ 50)
    (small : suc s.counter < 10 ^ 14) where
  -- LUA_STORE, called with a mode, a key, a value, flags, a CAS value and an expiry in decimal, on a
  -- database that agrees with a map of items, ends as `store_item` says on every path: an add of an item
  -- that exists, a replace of one that is missing, a CAS value that differs and a store that goes
  -- through, with the new CAS value. The database then agrees with the items that `store_item`
  -- leaves. The time is below 2^50, the expiry below 2^32, the request's CAS value below 2^64 and the CAS
  -- counter below 10^14 - 1.
  pub lua_store-Implements :
      (mode : Mode) (key value : Bytes) (flags req exp : ℕ)
      → exp < 2 ^ 32
      → req < 2 ^ 64
      → Implements ks stored
          (lua_store l
            (make_redis_key key)
            cas_counter_key
            (mode_text mode)
            value
            (to_string flags)
            (to_string req)
            (to_string exp))
          db
          (store_item (ks.now db) mode key value flags req exp s)
  lua_store-Implements mode key value flags req exp he hr = ends stored _ (seen-run ks _ db) (
      lua_store-Refines l exact (ks.now db) early (ks.entry db) s key value flags req exp h small he
        hr mode)

  -- After LUA_STORE, with an expiry below 2^32 and a CAS value below 2^64, LUA_GET of any key tells what
  -- the map of items holds there after `store_item`: at the key that was stored the new item, unless
  -- the store was refused or the expiry has passed, and at the other keys what they held. The time is
  -- below 2^50 and the CAS counter below 10^14 - 1.
  pub lua_get-lua_store :
      (mode : Mode) (key value : Bytes) (flags req exp : ℕ)
      → exp < 2 ^ 32
      → req < 2 ^ 64
      → (key' : Bytes)
      → (run ks
          (lua_get (make_redis_key key'))
          (run ks
            (lua_store l
              (make_redis_key key)
              cas_counter_key
              (mode_text mode)
              value
              (to_string flags)
              (to_string req)
              (to_string exp))
            db).1).0
        ≡ found ((store_item (ks.now db) mode key value flags req exp s).1.at key')
  lua_get-lua_store mode key value flags req exp he hr key' =
      ap (λ r. r.0)
        (lua_get-found ks _ _ (lua_store-Implements mode key value flags req exp he hr).1 key')

  -- LUA_DELETE, with a CAS value below 2^64, ends as `delete_item` says on every path: no item, a CAS value
  -- that differs, and an item that is removed. The database then agrees with the items that are left.
  -- The time is below 2^50 and the CAS counter below 10^14 - 1.
  pub lua_delete-Implements :
      (key : Bytes) (req : ℕ)
      → req < 2 ^ 64
      → Implements ks deleted
          (lua_delete (make_redis_key key) (to_string req))
          db
          (delete_item key req s)
  lua_delete-Implements key req hr =
      ends deleted _ (seen-run ks _ db)
        (lua_delete-Refines l exact (ks.now db) (ks.entry db) s key req h hr)

  -- LUA_APPEND and LUA_PREPEND, with a CAS value below 2^64, end as `concat_item` says: no item, a CAS
  -- value that differs, and a value that is extended at its end or its front, with the flags and the
  -- expiry kept and a new CAS value. The database then agrees with the items that are left. The time is
  -- below 2^50 and the CAS counter below 10^14 - 1.
  pub lua_concat-Implements :
      (prepends : Bool) (key part : Bytes) (req : ℕ)
      → req < 2 ^ 64
      → Implements ks extended
          (lua_concat l prepends (make_redis_key key) cas_counter_key part (to_string req))
          db
          (concat_item prepends key part req s)
  lua_concat-Implements prepends key part req hr = ends extended _ (seen-run ks _ db) (
      lua_concat-Refines l exact (ks.now db) early (ks.entry db) s prepends key part req h small hr)

  -- LUA_COUNTER, on no item or on one whose value is a count in decimal without leading zeros, where the sum of the count and
  -- the delta is below 2^53, whichever way the count goes, ends as
  -- `count_item` says: a count that goes up, or down to 0 at the least, with the flags and the expiry
  -- kept; a new item with the initial count; or no item, where the expiry is 2^32 - 1. It tells the text
  -- of the count and the new CAS value, and the database then agrees with the items that are left. The
  -- time is below 2^50, the expiry below 2^32 and the CAS counter below 10^14 - 1.
  pub lua_counter-Implements :
      (key : Bytes) (delta : ℕ) (downwards : Bool) (initial exp : ℕ)
      → exp < 2 ^ 32
      → Countable delta (s.at key)
      → Implements ks
          (told_count (count_text delta downwards initial (s.at key)))
          (lua_counter l
            (make_redis_key key)
            cas_counter_key
            (to_string delta)
            (direction downwards)
            (to_string initial)
            (to_string exp))
          db
          (count_item (ks.now db) key delta downwards initial exp s)
  lua_counter-Implements key delta downwards initial exp he c =
      ends (told_count (count_text delta downwards initial (s.at key))) _ (seen-run ks _ db) (
        lua_counter-Refines l exact (ks.now db) early (ks.entry db) s key delta downwards initial
          exp h small he c)

  -- LUA_TOUCH, with an expiry below 2^32 that lies ahead, ends as `touch_item` says: no item, or a new
  -- expiry and a new CAS value with the value and the flags kept. The database then agrees with the
  -- items that are left. The time is below 2^50 and the CAS counter below 10^14 - 1.
  pub lua_touch-Implements :
      (key : Bytes) (exp : ℕ)
      → exp < 2 ^ 32
      → lies_ahead (ks.now db) exp ≡ true
      → Implements ks touched
          (lua_touch l (make_redis_key key) cas_counter_key (to_string exp))
          db
          (touch_item (ks.now db) key exp s)
  lua_touch-Implements key exp he a =
      ends touched _ (seen-run ks _ db)
        (lua_touch-Refines l exact (ks.now db) early (ks.entry db) s key h small exp he a)

  -- LUA_GAT, with an expiry below 2^32 that lies ahead, tells the item at the key as it was, with the new
  -- CAS value, or that there is none, and the database then agrees with what `touch_item` leaves. The
  -- time is below 2^50 and the CAS counter below 10^14 - 1.
  pub lua_gat-Implements :
      (key : Bytes) (exp : ℕ)
      → exp < 2 ^ 32
      → lies_ahead (ks.now db) exp ≡ true
      → ((run ks (lua_gat l (make_redis_key key) cas_counter_key (to_string exp)) db).0
          ≡ got (suc s.counter) (s.at key))
        × Agrees
            (ks.entry
              (run ks (lua_gat l (make_redis_key key) cas_counter_key (to_string exp)) db).1)
            (touch_item (ks.now db) key exp s).1
  lua_gat-Implements key exp he a =
      ends (λ _. got (suc s.counter) (s.at key)) (touch_item (ks.now db) key exp s)
        (seen-run ks _ db)
        (lua_gat-Refines l exact (ks.now db) early (ks.entry db) s key h small exp he a)

  -- LUA_TOUCH of an item with an absolute expiry below 2^32 that has passed answers with success and a new
  -- CAS value, and LUA_GET then still finds the key, with an empty value and the flags 0: the key was
  -- deleted and made again with its CAS value alone, and with no expiry. The time is below 2^50 and the
  -- CAS counter below 10^14 - 1.
  pub lua_get-lua_touch :
      (key : Bytes) (exp : ℕ) (it : Item)
      → exp < 2 ^ 32
      → s.at key ≡ some it
      → lies_ahead (ks.now db) exp ≡ false
      → ((run ks (lua_touch l (make_redis_key key) cas_counter_key (to_string exp)) db).0
          ≡ touched (done (suc s.counter)))
        × ((run ks
              (lua_get (make_redis_key key))
              (run ks (lua_touch l (make_redis_key key) cas_counter_key (to_string exp)) db).1).0
            ≡ found (some (record { value = []; flags = 0; cas = suc s.counter; expires = none })))
        × (ks.entry
              (run ks (lua_touch l (make_redis_key key) cas_counter_key (to_string exp)) db).1
              (make_redis_key key)
            ≡ hash (set_fields (cas_field (to_string (suc s.counter))) no_fields) none)
  lua_get-lua_touch key exp it he at a =
      let db' = (run ks (lua_touch l (make_redis_key key) cas_counter_key (to_string exp)) db).1 in
      let bare = hash (set_fields (cas_field (to_string (suc s.counter))) no_fields) none in
      let after =
        seen-run ks (lua_touch l (make_redis_key key) cas_counter_key (to_string exp)) db
        ∙ lua_touch_past l exact (ks.now db) early (ks.entry db) s key h small exp he it
            (subst (Holds (ks.entry db (make_redis_key key))) at (h.holds key)) a in
      let left =
        ap (λ r. r.1 (make_redis_key key)) after
        ∙ update_self (update (ks.entry db) cas_counter_key (integer (pos (suc s.counter))))
            (make_redis_key key) bare in
      (
        ap (λ r. r.0) after,
        ap (λ r. r.0)
            (seen-run ks (lua_get (make_redis_key key)) db'
              ∙ lua_get-bare (ks.now db') (ks.entry db') key (suc s.counter) left),
        left,
      )
