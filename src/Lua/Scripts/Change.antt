-- ===== src/Lua/Scripts/Change.antt =====
-- What the scripts do to a key: they take a new CAS value and set fields, with an expiry or without.
use mathlib.Core.Path.{fun_ext}
use red_couch.Base.{
  ℕ, suc, ◌^◌, ◌<◌, ◌≡◌, refl, ap, ◌∙◌, Bool, Option, List, Bytes, bytes_eq, Bool-cases, inl, inr,
  pos,
}
use red_couch.Decimal.{to_string}
use red_couch.Items.{Items}
use red_couch.Lua.Keyspace.{Entry, hash, integer, update, hset, documented, unread, set_fields}
use red_couch.Lua.Number.{LuaNumber, IsExact}
use red_couch.Lua.Program.{Outcome, Program, give, call, run_view}
use red_couch.Lua.Program.Step.{update_self, update_other, update-update, write}
use red_couch.Lua.Scripts.{new_cas_block, expiry_block}
use red_couch.Lua.Scripts.Agrees.{counter_apart, changed}
use red_couch.Lua.Scripts.Blocks.{Counts, aged, new_cas_block_lem, expiry_block_lem, gives}
use red_couch.Redis.{make_redis_key, cas_counter_key}

module _ (l : LuaNumber) (exact : IsExact l) (now : ℕ) (early : now < 2 ^ 50) where
  -- a new CAS value, and fields that are set
  pub bumped :
      (view : Bytes → Entry) (s : Items) (key : Bytes) (fvs : Bytes → List (Bytes × Bytes))
      (e : Entry) (fields : Bytes → Option Bytes) (x : Option ℕ)
      → Counts (view cas_counter_key) s.counter
      → suc s.counter < 10 ^ 14
      → view (make_redis_key key) ≡ e
      → documented now (hset (fvs (to_string (suc s.counter)))) e
        ≡ (unread, hash (set_fields (fvs (to_string (suc s.counter))) fields) x)
      → (next : Bytes → Program)
      → run_view now
          (new_cas_block l cas_counter_key
            (λ new_cas. call (make_redis_key key) (hset (fvs new_cas)) (λ _. next new_cas)))
          view
        ≡ run_view now (next (to_string (suc s.counter))) (
            changed view
              (suc s.counter)
              (make_redis_key key)
              (hash (set_fields (fvs (to_string (suc s.counter))) fields) x))
  bumped view s key fvs e fields x counts small at d next =
      new_cas_block_lem l exact now view cas_counter_key _ s.counter (view cas_counter_key) refl
        counts small
      ∙ write now (make_redis_key key) (hset (fvs (to_string (suc s.counter)))) _ _ unread _
          (update_other view cas_counter_key (make_redis_key key) _ (counter_apart key) ∙ at) d tt

  -- a new CAS value, fields that are set, and an expiry
  pub rewritten :
      (view : Bytes → Entry) (s : Items) (key : Bytes) (persists : Bool) (exp : ℕ)
      (fvs : Bytes → List (Bytes × Bytes)) (out : Bytes → Outcome) (e : Entry)
      (fields : Bytes → Option Bytes) (x : Option ℕ)
      → Counts (view cas_counter_key) s.counter
      → suc s.counter < 10 ^ 14
      → exp < 2 ^ 32
      → view (make_redis_key key) ≡ e
      → documented now (hset (fvs (to_string (suc s.counter)))) e
        ≡ (unread, hash (set_fields (fvs (to_string (suc s.counter))) fields) x)
      → run_view now
          (new_cas_block l cas_counter_key (λ new_cas.
            call (make_redis_key key) (hset (fvs new_cas)) (λ _.
              expiry_block l persists (make_redis_key key) (to_string exp) (give (out new_cas)))))
          view
        ≡ (
          out (to_string (suc s.counter)),
          changed view
              (suc s.counter)
              (make_redis_key key)
              (aged now persists exp (set_fields (fvs (to_string (suc s.counter))) fields) x),
        )
  rewritten view s key persists exp fvs out e fields x h small he at d =
      let new = to_string (suc s.counter) in
      let counted = update view cas_counter_key (integer (pos (suc s.counter))) in
      let written = hash (set_fields (fvs new) fields) x in
      bumped view s key fvs e fields x h small at d _
      ∙ expiry_block_lem l exact now (update counted (make_redis_key key) written) persists
          (make_redis_key key) (set_fields (fvs new) fields) x exp (give (out new))
          (update_self counted (make_redis_key key) written) he early
      ∙ gives now _ (out new)
      ∙ ap (λ v. (out new, v)) (update-update counted (make_redis_key key) written _)

-- of two changes at a key, the later one stays
pub changed-update :
    (view : Bytes → Entry) (n : ℕ) (k : Bytes) (e e' : Entry)
    → changed (update view k e) n k e' ≡ changed view n k e'
changed-update view n k e e' =
    fun_ext (λ k'. elim (Bool-cases (bytes_eq k k')) [ inl same ↦ rw same | inr apart ↦ rw apart ])
