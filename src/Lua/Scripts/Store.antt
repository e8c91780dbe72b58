-- ===== src/Lua/Scripts/Store.antt =====
-- LUA_STORE against the store of an item.
use red_couch.Base.{
  ℕ, suc, ◌^◌, ◌<◌, ◌≡◌, refl, ap, ◌∙◌, Bool, true, false, Option, none, some, [], ◌∷◌, Bytes,
  codes, bytes_eq, ◌==◌, if◌then◌else◌, Bool-cases, inl, inr, pos, arith, not,
}
use red_couch.Decimal.{to_string}
use red_couch.Items.{
  Item, Items, Mode, add, replace, kept, put, Verdict, done, missing, mismatch, store_item,
  new_item, cas_agrees, settle, store_verdict,
}
use red_couch.Lua.Keyspace.{
  Entry, absent, hash, hset, exists, documented, unread, set_fields, no_fields, int,
}
use red_couch.Lua.Number.{LuaNumber, IsExact}
use red_couch.Lua.Program.{Outcome, Program, row, give, call, run_view, number, text}
use red_couch.Lua.Program.Step.{read}
use red_couch.Lua.Scripts.{
  lua_store, item_fields, refusal, new_cas_block, expiry_block, is_one, cas_block,
}
use red_couch.Lua.Scripts.Agrees.{
  Written, Holds, Agrees, Refines, put-Agrees, aged-Holds, ends, turned_down,
}
use red_couch.Lua.Scripts.Change.{rewritten}
use red_couch.Lua.Scripts.Blocks.{cas_block_lem, passes, is_zero_text}
use red_couch.Redis.{make_redis_key, cas_counter_key}

-- the argument `op` of the script
abbrev pub mode_text : Mode → Bytes
mode_text Mode.set = codes "set"
mode_text add = codes "add"
mode_text replace = codes "replace"

-- how the script tells a verdict
abbrev pub stored : Verdict → Outcome
stored (done cas) = row (number (pos 0) ∷ text (to_string cas) ∷ [])
stored missing = refusal 1 1
stored mismatch = refusal 2 1

module _ (l : LuaNumber) (exact : IsExact l) (now : ℕ) (early : now < 2 ^ 50) where
  module _ (view : Bytes → Entry) (s : Items) (key value : Bytes) (flags req exp : ℕ)
      (h : Agrees view s) (small : suc s.counter < 10 ^ 14) (he : exp < 2 ^ 32)
      (hr : req < 2 ^ 64) where
    -- the part of the script from the new CAS value on
    through : Bool → Program
    through was = new_cas_block l cas_counter_key (λ new_cas.
        call (make_redis_key key) (hset (item_fields value (to_string flags) new_cas)) (λ _.
          expiry_block l was (make_redis_key key) (to_string exp)
            (give (row (number (pos 0) ∷ text new_cas ∷ [])))))

    fresh : Verdict × Items
    fresh = (done (suc s.counter), put key (kept now (new_item value flags now exp s)) s)

    stores :
        (was : Bool) (e : Entry) (fields : Bytes → Option Bytes) (x : Option ℕ)
        → view (make_redis_key key) ≡ e
        → documented now (hset (item_fields value (to_string flags) (to_string (suc s.counter)))) e
          ≡ (
            unread,
            hash
                (set_fields
                  (item_fields value (to_string flags) (to_string (suc s.counter)))
                  fields)
                x,
          )
        → (if was then none else x) ≡ none
        → Refines stored (run_view now (through was) view) fresh
    unfolding fresh through bytes_eq
    stores was e fields x at d p =
        ends stored fresh
          (rewritten l exact now early view s key was exp (item_fields value (to_string flags))
            (λ new_cas. row (number (pos 0) ∷ text new_cas ∷ [])) e fields x h.counts small he at d)
          (
            refl,
            put-Agrees key view s _ _ h (
                aged-Holds now was exp _ x (new_item value flags now exp s)
                  (record { v = refl; f = refl; c = refl; small = small }) p),
          )

    run_store : Mode → Outcome × (Bytes → Entry)
    run_store mode =
        run_view now
          (lua_store l (make_redis_key key) cas_counter_key (mode_text mode) value (to_string flags)
            (to_string req) (to_string exp))
          view

    spec : Mode → Option Item → Verdict × Items
    spec mode it =
        settle (store_verdict mode req it (done (suc s.counter))) s
          (put key (kept now (new_item value flags now exp s)) s)

    made :
        view (make_redis_key key) ≡ absent
        → Refines stored (run_view now (through false) view) fresh
    unfolding documented
    made at = stores false absent no_fields none at refl refl

    on_none :
        (mode : Mode)
        → view (make_redis_key key) ≡ absent
        → Refines stored (run_store mode) (spec mode none)
    unfolding run_store spec fresh lua_store documented bytes_eq is_one cas_block through
    on_none Mode.set at =
        ends stored (spec Mode.set none)
          (read now (make_redis_key key) exists _ view (int (pos 0)) at refl tt)
          (elim (Bool-cases (req == 0)) [
            | inl z ↦ rw (is_zero_text req hr, z) (made at)
            | inr z ↦ rw (is_zero_text req hr, z) (turned_down stored now view s missing h)
          ])
    on_none add at =
        ends stored (spec add none)
          (read now (make_redis_key key) exists _ view (int (pos 0)) at refl tt)
          (elim (Bool-cases (req == 0)) [
            | inl z ↦ rw (is_zero_text req hr, z) (made at)
            | inr z ↦ rw (is_zero_text req hr, z) (turned_down stored now view s missing h)
          ])
    on_none replace at =
        ends stored (spec replace none)
          (read now (make_redis_key key) exists _ view (int (pos 0)) at refl tt)
          (turned_down stored now view s missing h)

    checked :
        (it : Item) (fields : Bytes → Option Bytes)
        → view (make_redis_key key) ≡ hash fields it.expires
        → Written fields it
        → (mode : Mode)
        → spec mode (some it)
          ≡ settle (if cas_agrees req it.cas then done (suc s.counter) else mismatch) s fresh.1
        → Refines stored
            (run_view now
              (cas_block (make_redis_key key) (to_string req) (refusal 2 1) (through true))
              view)
            (spec mode (some it))
    unfolding documented fresh
    checked it fields at w mode p =
        ends stored (spec mode (some it))
          (cas_block_lem l exact now view (make_redis_key key) fields it.expires it.cas req
            (refusal 2 1) (through true) at w.c (omega arith) hr)
          (rw p (elim (Bool-cases (cas_agrees req it.cas)) [
            | inl agrees ↦
                rw agrees (stores true (hash fields it.expires) fields it.expires at refl refl)
            | inr differs ↦ rw differs (refl, h)
          ]))

    on_some :
        (mode : Mode) (it : Item) (fields : Bytes → Option Bytes)
        → view (make_redis_key key) ≡ hash fields it.expires
        → Written fields it
        → Refines stored (run_store mode) (spec mode (some it))
    unfolding run_store spec fresh lua_store documented bytes_eq is_one through
    on_some add it fields at w =
        ends stored (spec add (some it))
          (read now (make_redis_key key) exists _ view (int (pos 1)) at refl tt)
          (turned_down stored now view s mismatch h)
    on_some Mode.set it fields at w =
        ends stored (spec Mode.set (some it))
          (read now (make_redis_key key) exists _ view (int (pos 1)) at refl tt
            ∙ ap (λ p. run_view now p view)
                (passes (not (bytes_eq (to_string req) (codes "0"))) _ _))
          (checked it fields at w Mode.set refl)
    on_some replace it fields at w =
        ends stored (spec replace (some it))
          (read now (make_redis_key key) exists _ view (int (pos 1)) at refl tt
            ∙ ap (λ p. run_view now p view)
                (passes (not (bytes_eq (to_string req) (codes "0"))) _ _))
          (checked it fields at w replace refl)

    pub lua_store-Refines :
        (mode : Mode)
        → Refines stored
            (run_view now
              (lua_store l
                (make_redis_key key)
                cas_counter_key
                (mode_text mode)
                value
                (to_string flags)
                (to_string req)
                (to_string exp))
              view)
            (store_item now mode key value flags req exp s)
    unfolding run_store spec
    lua_store-Refines mode = by_item (s.at key) (h.holds key)
      where
        by_item :
            (it : Option Item)
            → Holds (view (make_redis_key key)) it
            → Refines stored (run_store mode) (spec mode it)
        by_item none at = on_none mode at
        by_item (some it) (fields, (at, w)) = on_some mode it fields at w
