-- ===== src/Lua/Scripts/Remove.antt =====
-- LUA_DELETE against the removal of an item.
use red_couch.Base.{
  ℕ, ◌^◌, ◌<◌, ◌≡◌, refl, ◌∙◌, Option, none, some, Bytes, pos, arith, minus, bytes_eq, Bool-cases,
  inl, inr,
}
use red_couch.Decimal.{to_string}
use red_couch.Items.{
  Item, Items, Verdict, done, missing, mismatch, delete_item, delete_found, remove, cas_agrees,
}
use red_couch.Lua.Keyspace.{Entry, hash, absent, del, documented, int, update}
use red_couch.Lua.Number.{LuaNumber, IsExact}
use red_couch.Lua.Program.{Outcome, whole, give, call, run_view}
use red_couch.Lua.Program.Step.{there, gone, write}
use red_couch.Lua.Scripts.{lua_delete, is_one}
use red_couch.Lua.Scripts.Agrees.{
  Holds, Agrees, Refines, ends, turned_down, same_key, apart_counter,
}
use red_couch.Lua.Scripts.Blocks.{gives, cas_block_lem}
use red_couch.Redis.{make_redis_key}

-- how the script tells a verdict
abbrev pub deleted : Verdict → Outcome
deleted (done cas) = whole (pos 0)
deleted missing = whole (minus 1)
deleted mismatch = whole (minus 2)

remove-Agrees :
    (key : Bytes) (view : Bytes → Entry) (s : Items)
    → Agrees view s
    → Agrees (update view (make_redis_key key) absent) (remove key s)
remove-Agrees key view s h = record {
  holds = λ k. elim (Bool-cases (bytes_eq key k)) [
    | inl same ↦ rw (same_key key k, same) refl
    | inr apart ↦ rw (same_key key k, apart) (h.holds k)
  ];
  counts = rw (apart_counter key) h.counts;
}

module _ (l : LuaNumber) (exact : IsExact l) (now : ℕ) (view : Bytes → Entry) (s : Items)
    (key : Bytes) (req : ℕ) (h : Agrees view s) (hr : req < 2 ^ 64) where
  removed :
      {fields : Bytes → Option Bytes} {x : Option ℕ}
      → view (make_redis_key key) ≡ hash fields x
      → Refines deleted
          (run_view now (call (make_redis_key key) del (λ _. give (whole (pos 0)))) view)
          (done 0, remove key s)
  unfolding documented
  removed at =
      ends deleted (done 0, remove key s)
        (write now (make_redis_key key) del _ view (int (pos 1)) absent at refl tt
          ∙ gives now _ (whole (pos 0)))
        (refl, remove-Agrees key view s h)

  pub lua_delete-Refines :
      Refines deleted
        (run_view now (lua_delete (make_redis_key key) (to_string req)) view)
        (delete_item key req s)
  unfolding lua_delete is_one
  lua_delete-Refines = by_item (s.at key) (h.holds key)
    where
      by_item :
          (it : Option Item)
          → Holds (view (make_redis_key key)) it
          → Refines deleted
              (run_view now (lua_delete (make_redis_key key) (to_string req)) view)
              (delete_found key req s it)
      by_item none at =
          ends deleted (missing, s) (gone now (make_redis_key key) _ view at)
            (turned_down deleted now view s missing h)
      by_item (some it) (fields, (at, w)) =
          ends deleted (delete_found key req s (some it))
            (there now (make_redis_key key) _ view at
              ∙ cas_block_lem l exact now view (make_redis_key key) fields it.expires it.cas req
                  (whole (minus 2)) _ at w.c (omega arith) hr)
            (elim (Bool-cases (cas_agrees req it.cas)) [
              | inl agrees ↦ rw agrees (removed at)
              | inr differs ↦ rw differs (refl, h)
            ])
