-- ===== src/Lua/Served.antt =====
-- The handlers of src/ascii.rs together with the scripts that Redis runs for them, against the map of
-- items.
use mathlib.Core.Path.{subst}
use red_couch.Base.{
  suc, ◌^◌, ◌<◌, ◌≡◌, refl, sym, ap, Bool, true, false, not, ◌==◌, some, List, [], ◌∷◌, ◌++◌, Bytes,
  codes, bytes_eq, if◌then◌else◌, append-nil, ℤ, pos, negsuc,
}
use red_couch.Ascii.Command.{StoreOp}
use red_couch.Ascii.Handlers.{crlf, tell_unless}
use red_couch.Ascii.Handlers.Store.{StoreParams, store_status, store_reply, ascii_store, op_name}
use red_couch.Decimal.{to_string}
use red_couch.Items.{Items, Mode, add, replace, Verdict, done, missing, mismatch, store_item}
use red_couch.Lua.Executes.{Executes, Replied, script_program}
use red_couch.Lua.Keyspace.{Keyspace}
use red_couch.Lua.Number.{LuaNumber, IsExact}
use red_couch.Lua.Program.{Outcome, Program, row, number, text}
use red_couch.Lua.Refinement.{Implements, lua_store-Implements}
use red_couch.Lua.Scripts.{lua_store}
use red_couch.Lua.Scripts.Agrees.{Agrees}
use red_couch.Lua.Scripts.Store.{stored, mode_text}
use red_couch.Redis.{
  Redis, nil, cons, array, Reply, ok, Script, eval, eval_int, eval_lua, make_redis_key,
  cas_counter_key,
}
use red_couch.Redis.Fallback.{eval_lua_lem}
use red_couch.Server.Handler.{Br, Conn, Handled}
use red_couch.Server.Stats.{plus_one}

abbrev pub mode_of : StoreOp → Mode
mode_of StoreOp.set = Mode.set
mode_of StoreOp.add = add
mode_of StoreOp.replace = replace

op_name-mode_of : (op : StoreOp) → op_name op ≡ mode_text (mode_of op)
unfolding op_name
op_name-mode_of StoreOp.set = refl
op_name-mode_of StoreOp.add = refl
op_name-mode_of StoreOp.replace = refl

-- the answer to a store
abbrev pub store_line : StoreParams → Verdict → Bytes
store_line p (done cas) = codes "STORED"
store_line p missing = if not (p.cas == 0) then codes "NOT_FOUND" else codes "NOT_STORED"
store_line p mismatch = if not (p.cas == 0) then codes "EXISTS" else codes "NOT_STORED"

-- `Ok`, with this line behind what was in `out`, or nothing with `noreply`, and this database
abbrev pub Says : {r : Redis} → Bool → Bytes → Bytes → r.Db → Handled r → Type 0
Says noreply before line db (br, c) =
    (br ≡ Br.done) × ((c.out ≡ before ++ (if noreply then [] else line ++ crlf)) × (c.db ≡ db))

-- A handler succeeds, answers with the line of the verdict, or nothing with `noreply`, and leaves these
-- items.
abbrev pub Serves :
    {r : Redis}
    → Keyspace r.Db
    → Bool
    → Bytes
    → (Verdict → Bytes)
    → Handled r
    → Verdict × Items
    → Type 0
Serves ks noreply before line (br, c) (verdict, items) =
    (br ≡ Br.done)
    × ((c.out ≡ before ++ (if noreply then [] else line verdict ++ crlf))
        × Agrees (ks.entry c.db) items)

module _ {r : Redis} where
  tell_unless-Says :
      (noreply : Bool) (line : Bytes) (c : Conn r)
      → Says noreply c.out line c.db (tell_unless noreply line c)
  unfolding tell_unless
  tell_unless-Says true line c = (refl, (sym (append-nil c.out), refl))
  tell_unless-Says false line c = (refl, (refl, refl))

  -- the status in a row
  store_reply-row :
      (p : StoreParams) (n : ℤ) (t : Bytes) (reply : Reply) (c : Conn r)
      → Replied r (row (number n ∷ text t ∷ [])) reply
      → store_reply p reply c ≡ store_status p n c
  unfolding store_reply eval_int
  store_reply-row p n t (ok (array (cons v (cons w vs)))) c (e, _) =
      ap (λ x. store_status p (eval_int x) c) e
  store_reply-row p n t (ok (array (cons v nil))) c (e, h) = absurd h
  store_reply-row p n t _ c h = absurd h

  store_reply-Says :
      (p : StoreParams) (verdict : Verdict) (reply : Reply) (c : Conn r)
      → Replied r (stored verdict) reply
      → Says p.noreply c.out (store_line p verdict) c.db (store_reply p reply c)
  unfolding store_status
  store_reply-Says p (done cas) reply c h =
      rw (store_reply-row p (pos 0) (to_string cas) reply c h) (tell_unless-Says p.noreply _ _)
  store_reply-Says p missing reply c h =
      rw (store_reply-row p (negsuc 0) [] reply c h) (tell_unless-Says p.noreply _ _)
  store_reply-Says p mismatch reply c h =
      rw (store_reply-row p (negsuc 1) [] reply c h) (tell_unless-Says p.noreply _ _)

module _ {r : Redis} (ks : Keyspace r.Db) (l : LuaNumber) (executes : Executes r ks l) where
  -- what comes back of a script, and the keys that it leaves
  pub served :
      (s : Script) (args : List Bytes) (p : Program) (db : r.Db) (told : Verdict → Outcome)
      (v : Verdict) (items : Items)
      → script_program l s args ≡ some p
      → Implements ks told p db (v, items)
      → Replied r (told v) (eval_lua r s args db).0
        × Agrees (ks.entry (eval_lua r s args db).1) items
  served s args p db told v items e (tells, agrees) = rw (eval_lua_lem r executes.cache s args db) (
    subst (λ o. Replied r o (r.call (eval s args) db).0) tells (executes.replies s args p db e),
    subst (λ d. Agrees (ks.entry d) items) (sym (executes.leaves s args p db e)) agrees,
  )

  the_script :
      (p : StoreParams) (key value : Bytes)
      → script_program l Script.store (
          codes "2"
          ∷ make_redis_key key
          ∷ cas_counter_key
          ∷ op_name p.op
          ∷ value
          ∷ to_string p.flags
          ∷ to_string p.cas
          ∷ to_string p.exptime
          ∷ [])
        ≡ some (
            lua_store l
              (make_redis_key key)
              cas_counter_key
              (mode_text (mode_of p.op))
              value
              (to_string p.flags)
              (to_string p.cas)
              (to_string p.exptime))
  unfolding bytes_eq
  the_script p key value =
      ap
        (λ op. some (
          lua_store l (make_redis_key key) cas_counter_key op value (to_string p.flags)
            (to_string p.cas) (to_string p.exptime)))
        (op_name-mode_of p.op)

  module _ (exact : IsExact l) (c : Conn r) (s : Items) (agrees : Agrees (ks.entry c.db) s)
      (early : ks.now c.db < 2 ^ 50) (small : suc s.counter < 10 ^ 14) where
    -- Where the database agrees with a map of items, `ascii_store` succeeds and answers what `store_item`
    -- says: STORED; NOT_STORED for an add of an item that exists and a replace of one that is missing;
    -- NOT_FOUND and EXISTS for a CAS value without an item and for another one; or nothing with
    -- `noreply`. The database then agrees with the items that `store_item` leaves. Redis runs the
    -- scripts, cached or not, as `Executes` says. The time is below 2^50, the expiry below 2^32, the
    -- request's CAS value below 2^64 and the CAS counter below 10^14 - 1.
    pub ascii_store-Serves :
        (p : StoreParams) (key value : Bytes)
        → p.exptime < 2 ^ 32
        → p.cas < 2 ^ 64
        → Serves ks p.noreply c.out
            (store_line p)
            (ascii_store p key value c)
            (store_item (ks.now c.db) (mode_of p.op) key value p.flags p.cas p.exptime s)
    unfolding ascii_store
    ascii_store-Serves p key value he hc =
        let v = store_item (ks.now c.db) (mode_of p.op) key value p.flags p.cas p.exptime s in
        let args =
          codes "2"
          ∷ make_redis_key key
          ∷ cas_counter_key
          ∷ op_name p.op
          ∷ value
          ∷ to_string p.flags
          ∷ to_string p.cas
          ∷ to_string p.exptime
          ∷ [] in
        let (reply, left) =
          served Script.store args _ c.db stored v.0 v.1 (the_script p key value) (
            lua_store-Implements ks l exact c.db s agrees early small (mode_of p.op) key value
              p.flags p.cas p.exptime he hc) in
        let stats' = record (c.stats) { cmd_set = plus_one c.stats.cmd_set } in
        let (br, (out, db)) =
          store_reply-Says p v.0 (eval_lua r Script.store args c.db).0
            (record c { db = (eval_lua r Script.store args c.db).1; stats = stats' }) reply in
        (br, (out, subst (λ d. Agrees (ks.entry d) v.1) (sym db) left))
