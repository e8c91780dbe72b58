-- ===== src/Lua/Scripts/Revise.antt =====
-- LUA_TOUCH and LUA_GAT against a new expiry of an item.
use red_couch.Base.{
  ℕ, suc, ◌+◌, ◌^◌, ◌<◌, ◌≡◌, refl, ap, ◌∙◌, true, false, Option, none, some, List, [], ◌∷◌, Bytes,
  codes, pos, arith, bytes_eq, Bool-cases, inl, inr, leb, ◌==◌,
}
use red_couch.Decimal.{to_string}
use red_couch.Hex.{hex_encode}
use red_couch.Items.{
  Item, Items, Verdict, done, missing, mismatch, touch_item, touch_found, lies_ahead, due, put,
}
use red_couch.Lua.Keyspace.{
  Entry, hash, absent, integer, documented, update, set_fields, no_fields, hset, unread, hget,
}
use red_couch.Lua.Number.{LuaNumber, IsExact}
use red_couch.Lua.Program.{Outcome, Program, row, give, call, run_view, number, text}
use red_couch.Lua.Program.Step.{there, gone, field, update_self}
use red_couch.Lua.Scripts.{
  lua_touch, lua_gat, is_one, refusal, new_cas_block, expiry_block, or_default,
}
use red_couch.Lua.Scripts.Agrees.{
  Written, Holds, Agrees, Refines, ends, turned_down, apart_counter, changed, put-Agrees,
}
use red_couch.Lua.Scripts.Blocks.{aged, gives, expiry_block_lem}
use red_couch.Lua.Scripts.Read.{found}
use red_couch.Lua.Scripts.Change.{bumped, changed-update}
use red_couch.Redis.{make_redis_key, cas_counter_key}

-- how LUA_TOUCH tells a verdict
abbrev pub touched : Verdict → Outcome
touched (done cas) = row (number (pos 0) ∷ text (to_string cas) ∷ [])
touched missing = refusal 1 1
touched mismatch = refusal 2 1

-- how LUA_GAT tells an item
abbrev pub got : ℕ → Option Item → Outcome
got cas none = refusal 1 3
got cas (some it) = found (some (record it { cas = cas }))

-- the field of the CAS value
abbrev pub cas_field : Bytes → List (Bytes × Bytes)
cas_field c = (codes "c", c) ∷ []

aged_ahead :
    (now exp : ℕ) (fields : Bytes → Option Bytes) (x : Option ℕ)
    → lies_ahead now exp ≡ true
    → aged now true exp fields x ≡ hash fields (due now exp)
aged_ahead now exp fields x h = elim (Bool-cases (exp == 0)) [
  | inl e ↦ rw e refl
  | inr e ↦ rw e (elim (Bool-cases (leb exp 2592000)) [
    | inl near ↦ rw (near, later e) refl
    | inr far ↦ rw (far, ahead far) refl
  ])
]
  where
    later : (exp == 0) ≡ false → leb (now + exp) now ≡ false
    later e = ground arith

    ahead : leb exp 2592000 ≡ false → leb exp now ≡ false
    ahead far = ground arith

aged_past :
    (now exp : ℕ) (fields : Bytes → Option Bytes) (x : Option ℕ)
    → lies_ahead now exp ≡ false
    → aged now true exp fields x ≡ absent
aged_past now exp fields x h = rw (not_zero, far, past) refl
  where
    not_zero : (exp == 0) ≡ false
    not_zero = ground arith

    far : leb exp 2592000 ≡ false
    far = ground arith

    past : leb exp now ≡ true
    past = ground arith

module _ (l : LuaNumber) (exact : IsExact l) (now : ℕ) (early : now < 2 ^ 50) (view : Bytes → Entry)
    (s : Items) (key : Bytes) (h : Agrees view s) (small : suc s.counter < 10 ^ 14) where
  -- an expiry, and then a new CAS value
  pub retimed :
      (exp : ℕ) (next : Bytes → Program) (fields fields' : Bytes → Option Bytes) (x x' : Option ℕ)
      → exp < 2 ^ 32
      → view (make_redis_key key) ≡ hash fields x
      → documented now (hset (cas_field (to_string (suc s.counter)))) (aged now true exp fields x)
        ≡ (unread, hash (set_fields (cas_field (to_string (suc s.counter))) fields') x')
      → run_view now
          (expiry_block l true (make_redis_key key) (to_string exp) (
            new_cas_block l cas_counter_key (λ new_cas.
              call (make_redis_key key) (hset (cas_field new_cas)) (λ _. next new_cas))))
          view
        ≡ run_view now (next (to_string (suc s.counter))) (
            changed view
              (suc s.counter)
              (make_redis_key key)
              (hash (set_fields (cas_field (to_string (suc s.counter))) fields') x'))
  retimed exp next fields fields' x x' he at d =
      let e = aged now true exp fields x in
      expiry_block_lem l exact now view true (make_redis_key key) fields x exp _ at he early
      ∙ bumped l exact now early (update view (make_redis_key key) e) s key cas_field e fields' x'
          (rw (apart_counter key) h.counts) small (update_self view (make_redis_key key) e) d next
      ∙ ap (run_view now (next (to_string (suc s.counter))))
          (changed-update view (suc s.counter) (make_redis_key key) e _)

  cas-Written :
      (fields : Bytes → Option Bytes) (it : Item) (t : Option ℕ)
      → Written fields it
      → Written
          (set_fields (cas_field (to_string (suc s.counter))) fields)
          (record it { expires = t; cas = suc s.counter })
  unfolding bytes_eq
  cas-Written fields it t w = record { v = w.v; f = w.f; c = refl; small = small }

  ahead :
      (exp : ℕ) (fields : Bytes → Option Bytes) (x : Option ℕ)
      → lies_ahead now exp ≡ true
      → documented now (hset (cas_field (to_string (suc s.counter)))) (aged now true exp fields x)
        ≡ (unread, hash (set_fields (cas_field (to_string (suc s.counter))) fields) (due now exp))
  unfolding documented
  ahead exp fields x a = rw (aged_ahead now exp fields x a) refl

  past :
      (exp : ℕ) (fields : Bytes → Option Bytes) (x : Option ℕ)
      → lies_ahead now exp ≡ false
      → documented now (hset (cas_field (to_string (suc s.counter)))) (aged now true exp fields x)
        ≡ (unread, hash (set_fields (cas_field (to_string (suc s.counter))) no_fields) none)
  unfolding documented
  past exp fields x a = rw (aged_past now exp fields x a) refl

  new_time_Agrees :
      (exp : ℕ) (it : Item) (fields : Bytes → Option Bytes)
      → Written fields it
      → Agrees
          (changed view
            (suc s.counter)
            (make_redis_key key)
            (hash (set_fields (cas_field (to_string (suc s.counter))) fields) (due now exp)))
          (put key (some (record it { expires = due now exp; cas = suc s.counter })) s)
  new_time_Agrees exp it fields w =
      put-Agrees key view s _ (some (record it { expires = due now exp; cas = suc s.counter })) h
        (_, (refl, cas-Written fields it (due now exp) w))

  module _ (exp : ℕ) (he : exp < 2 ^ 32) where
    pub lua_touch-Refines :
        lies_ahead now exp ≡ true
        → Refines touched
            (run_view now (lua_touch l (make_redis_key key) cas_counter_key (to_string exp)) view)
            (touch_item now key exp s)
    unfolding lua_touch is_one
    lua_touch-Refines a = by_item (s.at key) (h.holds key)
      where
        by_item :
            (it : Option Item)
            → Holds (view (make_redis_key key)) it
            → Refines touched
                (run_view now
                  (lua_touch l (make_redis_key key) cas_counter_key (to_string exp))
                  view)
                (touch_found now key exp s it)
        by_item none at =
            ends touched (missing, s) (gone now (make_redis_key key) _ view at)
              (turned_down touched now view s missing h)
        by_item (some it) (fields, (at, w)) =
            ends touched (touch_found now key exp s (some it))
              (there now (make_redis_key key) _ view at
                ∙ retimed exp (λ c. give (row (number (pos 0) ∷ text c ∷ []))) fields fields
                    it.expires _ he at (ahead exp fields it.expires a)
                ∙ gives now _ _)
              (refl, new_time_Agrees exp it fields w)

    -- a time that has passed leaves the key with the CAS value and nothing else, for ever
    pub lua_touch_past :
        (it : Item)
        → Holds (view (make_redis_key key)) (some it)
        → lies_ahead now exp ≡ false
        → run_view now (lua_touch l (make_redis_key key) cas_counter_key (to_string exp)) view ≡ (
          touched (done (suc s.counter)),
          changed view
              (suc s.counter)
              (make_redis_key key)
              (hash (set_fields (cas_field (to_string (suc s.counter))) no_fields) none),
        )
    unfolding lua_touch is_one
    lua_touch_past it (fields, (at, w)) a =
        there now (make_redis_key key) _ view at
        ∙ retimed exp (λ c. give (row (number (pos 0) ∷ text c ∷ []))) fields no_fields it.expires _
            he at (past exp fields it.expires a)
        ∙ gives now _ _

    -- the part of LUA_GAT that reads the item
    tells : Bytes → Program
    tells new_cas = call (make_redis_key key) (hget (codes "v")) (λ v.
        call (make_redis_key key) (hget (codes "f")) (λ f. give (
          row (
            number (pos 0)
            ∷ text (hex_encode (or_default v []))
            ∷ text (or_default f (codes "0"))
            ∷ text new_cas
            ∷ []))))

    -- LUA_GAT tells the item as it was, with the new CAS value
    pub lua_gat-Refines :
        lies_ahead now exp ≡ true
        → ((run_view now (lua_gat l (make_redis_key key) cas_counter_key (to_string exp)) view).0
            ≡ got (suc s.counter) (s.at key))
          × Agrees
              (run_view now (lua_gat l (make_redis_key key) cas_counter_key (to_string exp)) view).1
              (touch_item now key exp s).1
    unfolding lua_gat is_one or_default bytes_eq tells
    lua_gat-Refines a = by_item (s.at key) (h.holds key)
      where
        by_item :
            (it : Option Item)
            → Holds (view (make_redis_key key)) it
            → ((run_view now
                  (lua_gat l (make_redis_key key) cas_counter_key (to_string exp))
                  view).0
                ≡ got (suc s.counter) it)
              × Agrees
                  (run_view now
                    (lua_gat l (make_redis_key key) cas_counter_key (to_string exp))
                    view).1
                  (touch_found now key exp s it).1
        by_item none at =
            ends (λ _. got (suc s.counter) none) (missing, s)
              (gone now (make_redis_key key) _ view at)
              (turned_down (λ _. got (suc s.counter) none) now view s missing h)
        by_item (some it) (fields, (at, w)) =
            let after =
              changed view (suc s.counter) (make_redis_key key)
                (hash (set_fields (cas_field (to_string (suc s.counter))) fields) (due now exp)) in
            let kept_here =
              update_self (update view cas_counter_key (integer (pos (suc s.counter))))
                (make_redis_key key) _ in
            ends (λ _. got (suc s.counter) (some it)) (touch_found now key exp s (some it))
              (there now (make_redis_key key) _ view at
                ∙ retimed exp tells fields fields it.expires _ he at (ahead exp fields it.expires a)
                ∙ field now (make_redis_key key) _ after (codes "v") it.value kept_here w.v
                ∙ field now (make_redis_key key) _ after (codes "f") (to_string it.flags) kept_here
                    w.f
                ∙ gives now after (got (suc s.counter) (some it)))
              (refl, new_time_Agrees exp it fields w)
