-- ===== src/Lua/Scripts/Count.antt =====
-- LUA_COUNTER against the change of a count.
use mathlib.Core.Path.{subst}
use red_couch.Base.{
  ℕ, suc, ◌+◌, ◌-◌, ◌^◌, ◌≤◌, ◌<◌, ◌≡◌, refl, sym, ap, ◌∙◌, Bool, true, false, Option, none, some,
  [], ◌∷◌, Bytes, codes, pos, arith, bytes_eq, Bool-cases, inl, inr, ltb, ◌==◌,
}
use red_couch.Decimal.{to_string, parse_unsigned, parse_unsigned-to_string}
use red_couch.Items.{
  Item, Items, Verdict, done, missing, mismatch, count_item, count_found, count_text, count_known,
  known_text, moved, Countable, kept, put, new_item,
}
use red_couch.Lua.Keyspace.{Entry, hash, absent, documented, no_fields, hset, bulk}
use red_couch.Lua.Number.{LuaNumber, IsExact, of_nat}
use red_couch.Lua.Program.{Outcome, row, give, call, run_view, number, text}
use red_couch.Lua.Program.Step.{there, gone, field}
use red_couch.Lua.Scripts.{
  lua_counter, new_counter, change_counter, counted, is_never, answer_number, is_one, refusal,
  item_fields, new_cas_block,
}
use red_couch.Lua.Scripts.Agrees.{
  Written, Holds, Agrees, Refines, ends, turned_down, put-Agrees, aged-Holds,
}
use red_couch.Lua.Scripts.Blocks.{gives}
use red_couch.Lua.Scripts.Change.{bumped, rewritten}
use red_couch.Redis.{make_redis_key, cas_counter_key}

-- how the script tells a verdict, with a count
abbrev pub told_count : Bytes → Verdict → Outcome
told_count count (done cas) = row (number (pos 0) ∷ text count ∷ text (to_string cas) ∷ [])
told_count count missing = refusal 1 2
told_count count mismatch = refusal 3 2

-- the argument for the direction
abbrev pub direction : Bool → Bytes
direction true = codes "1"
direction false = codes "0"

module _ (l : LuaNumber) (exact : IsExact l) where
  counted_lem :
      (n delta : ℕ) (downwards : Bool)
      → n + delta < 2 ^ 53
      → counted l (of_nat l n) (of_nat l delta) downwards ≡ of_nat l (moved downwards delta n)
  unfolding counted
  counted_lem n delta false h =
      rw
        (
          exact.adds n delta h,
          exact.compares_lt (n + delta) 0 h (omega arith),
          not_below (n + delta),
        )
        refl
    where
      not_below : (m : ℕ) → ltb m 0 ≡ false
      not_below m = ground arith
  counted_lem n delta true h =
      rw (exact.compares_lt n delta (omega arith) (omega arith)) (elim (Bool-cases (ltb n delta)) [
        | inl below ↦
            rw (below, exact.compares_lt 0 0 (omega arith) (omega arith))
              (ap (of_nat l) (zero_left below))
        | inr above ↦
            rw
              (
                above,
                exact.subtracts n delta (reached above) (omega arith),
                exact.compares_lt (n - delta) 0 (omega arith) (omega arith),
                not_below (n - delta),
              )
              refl
      ])
    where
      not_below : (m : ℕ) → ltb m 0 ≡ false
      not_below m = ground arith

      zero_left : ltb n delta ≡ true → 0 ≡ n - delta
      zero_left p = ground arith

      reached : ltb n delta ≡ false → delta ≤ n
      reached p = ground arith

  is_never_lem :
      (exp : ℕ) → exp < 2 ^ 32 → is_never l (l.tonumber (to_string exp)) ≡ (exp == 4294967295)
  unfolding is_never
  is_never_lem exp he =
      rw (exact.reads exp (omega arith))
        (exact.compares_eq exp 4294967295 (omega arith) (omega arith))

  -- the branch that changes a count, with its numbers read
  change-counted :
      (key cas_key : Bytes) (n delta : ℕ) (downwards : Bool) (is_decrement : Bool)
      → is_decrement ≡ downwards
      → n + delta < 2 ^ 53
      → change_counter l key cas_key
          (answer_number l (bulk (to_string n)))
          (l.tonumber (to_string delta))
          is_decrement
        ≡ new_cas_block l cas_key (λ new_cas.
          call key
            (hset ((codes "v", to_string (moved downwards delta n)) ∷ (codes "c", new_cas) ∷ []))
            (λ _. give (
              row
                (number (pos 0) ∷ text (to_string (moved downwards delta n)) ∷ text new_cas ∷ []))))
  unfolding change_counter answer_number
  change-counted key cas_key n delta downwards is_decrement e h =
      rw
        (
          exact.reads n (omega arith),
          exact.reads delta (omega arith),
          e,
          counted_lem n delta downwards h,
          exact.formats (moved downwards delta n) (bounded downwards),
        )
        refl
    where
      bounded : (b : Bool) → moved b delta n < 2 ^ 53
      bounded true = omega arith
      bounded false = h

  module _ (now : ℕ) (early : now < 2 ^ 50) (view : Bytes → Entry) (s : Items) (key : Bytes)
      (delta : ℕ) (downwards : Bool) (initial exp : ℕ) (h : Agrees view s)
      (small : suc s.counter < 10 ^ 14) (he : exp < 2 ^ 32) where
    run_counter : Outcome × (Bytes → Entry)
    run_counter =
        run_view now
          (lua_counter l (make_redis_key key) cas_counter_key (to_string delta)
            (direction downwards) (to_string initial) (to_string exp))
          view

    counter_made :
        view (make_redis_key key) ≡ absent
        → Refines
            (told_count (to_string initial))
            (run_view now
              (new_counter l
                (make_redis_key key)
                cas_counter_key
                (to_string initial)
                (to_string exp))
              view)
            (done (suc s.counter), put key (kept now (new_item (to_string initial) 0 now exp s)) s)
    unfolding new_counter documented bytes_eq to_string
    counter_made at =
        ends (told_count (to_string initial))
          (done (suc s.counter), put key (kept now (new_item (to_string initial) 0 now exp s)) s)
          (rewritten l exact now early view s key false exp
            (item_fields (to_string initial) (codes "0"))
            (λ c. row (number (pos 0) ∷ text (to_string initial) ∷ text c ∷ [])) absent no_fields
            none h.counts small he at refl)
          (
            refl,
            put-Agrees key view s _ _ h (
                aged-Holds now false exp _ none (new_item (to_string initial) 0 now exp s)
                  (record { v = refl; f = refl; c = refl; small = small }) refl),
          )

    counter_changed :
        (it : Item) (fields : Bytes → Option Bytes) (n : ℕ)
        → view (make_redis_key key) ≡ hash fields it.expires
        → Written fields it
        → it.value ≡ to_string n
        → n + delta < 2 ^ 53
        → Refines (told_count (to_string (moved downwards delta n))) run_counter (
          done (suc s.counter),
          put key
              (some
                (record it { value = to_string (moved downwards delta n); cas = suc s.counter }))
              s,
        )
    unfolding run_counter lua_counter is_one documented bytes_eq
    counter_changed it fields n at w v h' =
        let new_v = to_string (moved downwards delta n) in
        ends (told_count new_v)
          (
            done (suc s.counter),
            put key (some (record it { value = new_v; cas = suc s.counter })) s,
          )
          (there now (make_redis_key key) _ view at
            ∙ field now (make_redis_key key) _ view (codes "v") (to_string n) at (w.v ∙ ap some v)
            ∙ ap (λ p. run_view now p view)
                (change-counted (make_redis_key key) cas_counter_key n delta downwards _
                  (flag downwards) h')
            ∙ bumped l exact now early view s key (λ c. (codes "v", new_v) ∷ (codes "c", c) ∷ [])
                (hash fields it.expires) fields it.expires h.counts small at refl
                (λ c. give (row (number (pos 0) ∷ text new_v ∷ text c ∷ [])))
            ∙ gives now _ _)
          (
            refl,
            put-Agrees key view s _ (some (record it { value = new_v; cas = suc s.counter })) h
                (_, (refl, record { v = refl; f = w.f; c = refl; small = small })),
          )
      where
        flag : (b : Bool) → bytes_eq (direction b) (codes "1") ≡ b
        flag true = refl
        flag false = refl

    on_none :
        view (make_redis_key key) ≡ absent
        → Refines
            (told_count (to_string initial))
            run_counter
            (count_found now key delta downwards initial exp s none)
    unfolding run_counter lua_counter is_one
    on_none at =
        ends (told_count (to_string initial))
          (count_found now key delta downwards initial exp s none)
          (gone now (make_redis_key key) _ view at)
          (rw (is_never_lem exp he) (elim (Bool-cases (exp == 4294967295)) [
            | inl never ↦
                rw never (turned_down (told_count (to_string initial)) now view s missing h)
            | inr e ↦ rw e (counter_made at)
          ]))

    pub lua_counter-Refines :
        Countable delta (s.at key)
        → Refines
            (told_count (count_text delta downwards initial (s.at key)))
            (run_view now
              (lua_counter l
                (make_redis_key key)
                cas_counter_key
                (to_string delta)
                (direction downwards)
                (to_string initial)
                (to_string exp))
              view)
            (count_item now key delta downwards initial exp s)
    unfolding run_counter
    lua_counter-Refines = by_item (s.at key) (h.holds key)
      where
        by_item :
            (it : Option Item)
            → Holds (view (make_redis_key key)) it
            → Countable delta it
            → Refines
                (told_count (count_text delta downwards initial it))
                run_counter
                (count_found now key delta downwards initial exp s it)
        by_item none at _ = on_none at
        by_item (some it) (fields, (at, w)) (n, (v, h')) =
            subst
              (λ o.
                Refines (told_count (known_text delta downwards o)) run_counter
                  (count_known key delta downwards s it o))
              (sym (
                ap (parse_unsigned (2 ^ 53)) v ∙ parse_unsigned-to_string (2 ^ 53) n (omega arith)))
              (counter_changed it fields n at w v h')
