-- ===== src/Lua/Scripts/Concat.antt =====
-- LUA_APPEND and LUA_PREPEND against the extension of an item's value.
use red_couch.Base.{
  ℕ, suc, ◌^◌, ◌<◌, ◌≡◌, refl, ◌∙◌, Bool, Option, none, some, [], ◌∷◌, Bytes, codes, pos, arith,
  ◌++◌, bytes_eq, if◌then◌else◌, Bool-cases, inl, inr,
}
use red_couch.Decimal.{to_string}
use red_couch.Items.{
  Item, Items, Verdict, done, missing, mismatch, concat_item, concat_found, cas_agrees, put,
}
use red_couch.Lua.Keyspace.{Entry, hash, documented, hset, hget}
use red_couch.Lua.Number.{LuaNumber, IsExact}
use red_couch.Lua.Program.{Outcome, Program, row, give, call, run_view, number, text}
use red_couch.Lua.Program.Step.{there, gone, field}
use red_couch.Lua.Scripts.{lua_concat, is_one, refusal, new_cas_block, or_default}
use red_couch.Lua.Scripts.Agrees.{Written, Holds, Agrees, Refines, ends, turned_down, put-Agrees}
use red_couch.Lua.Scripts.Blocks.{gives, cas_block_lem}
use red_couch.Lua.Scripts.Change.{bumped}
use red_couch.Redis.{make_redis_key, cas_counter_key}

-- how LUA_APPEND and LUA_PREPEND tell a verdict
abbrev pub extended : Verdict → Outcome
extended (done cas) = row (number (pos 0) ∷ text (to_string cas) ∷ [])
extended missing = refusal 5 1
extended mismatch = refusal 2 1

module _ (l : LuaNumber) (exact : IsExact l) (now : ℕ) (early : now < 2 ^ 50) (view : Bytes → Entry)
    (s : Items) (prepends : Bool) (key part : Bytes) (req : ℕ) (h : Agrees view s)
    (small : suc s.counter < 10 ^ 14) (hr : req < 2 ^ 64) where
  -- the script from the reading of the value on
  joins : Program
  joins = call (make_redis_key key) (hget (codes "v")) (λ old.
      let old_v = or_default old [] in
      let new_v = if prepends then part ++ old_v else old_v ++ part in
      new_cas_block l cas_counter_key (λ new_cas.
        call (make_redis_key key) (hset ((codes "v", new_v) ∷ (codes "c", new_cas) ∷ []))
          (λ _. give (row (number (pos 0) ∷ text new_cas ∷ [])))))

  joined :
      (it : Item) (fields : Bytes → Option Bytes)
      → view (make_redis_key key) ≡ hash fields it.expires
      → Written fields it
      → Refines extended (run_view now joins view) (
        done (suc s.counter),
        put key
            (some (record it {
              value = if prepends then part ++ it.value else it.value ++ part;
              cas = suc s.counter;
            }))
            s,
      )
  unfolding joins documented or_default bytes_eq
  joined it fields at w =
      let new_v = if prepends then part ++ it.value else it.value ++ part in
      ends extended
        (done (suc s.counter), put key (some (record it { value = new_v; cas = suc s.counter })) s)
        (field now (make_redis_key key) _ view (codes "v") it.value at w.v
          ∙ bumped l exact now early view s key (λ c. (codes "v", new_v) ∷ (codes "c", c) ∷ [])
              (hash fields it.expires) fields it.expires h.counts small at refl
              (λ c. give (row (number (pos 0) ∷ text c ∷ [])))
          ∙ gives now _ _)
        (
          refl,
          put-Agrees key view s _ (some (record it { value = new_v; cas = suc s.counter })) h
              (_, (refl, record { v = refl; f = w.f; c = refl; small = small })),
        )

  pub lua_concat-Refines :
      Refines extended
        (run_view now
          (lua_concat l prepends (make_redis_key key) cas_counter_key part (to_string req))
          view)
        (concat_item prepends key part req s)
  unfolding lua_concat is_one joins
  lua_concat-Refines = by_item (s.at key) (h.holds key)
    where
      by_item :
          (it : Option Item)
          → Holds (view (make_redis_key key)) it
          → Refines extended
              (run_view now
                (lua_concat l prepends (make_redis_key key) cas_counter_key part (to_string req))
                view)
              (concat_found prepends key part req s it)
      by_item none at =
          ends extended (missing, s) (gone now (make_redis_key key) _ view at)
            (turned_down extended now view s missing h)
      by_item (some it) (fields, (at, w)) =
          ends extended (concat_found prepends key part req s (some it))
            (there now (make_redis_key key) _ view at
              ∙ cas_block_lem l exact now view (make_redis_key key) fields it.expires it.cas req
                  (refusal 2 1) joins at w.c (omega arith) hr)
            (elim (Bool-cases (cas_agrees req it.cas)) [
              | inl agrees ↦ rw agrees (joined it fields at w)
              | inr differs ↦ rw differs (refl, h)
            ])
