-- ===== src/Lua/Executes.antt =====
-- Redis as the module calls it, with the scripts as Redis runs them. A call of EVAL runs the script on
-- the keys, and its outcome comes back as a reply.
use red_couch.Base.{
  ◌≡◌, true, false, Option, none, some, List, [], ◌∷◌, Bytes, codes, bytes_eq, IsAscii,
  if◌then◌else◌,
}
use red_couch.Lua.Keyspace.{Keyspace}
use red_couch.Lua.Number.{LuaNumber}
use red_couch.Lua.Program.{Cell, number, text, Outcome, whole, row, Program, run}
use red_couch.Lua.Scripts.{
  lua_store, lua_get, lua_delete, lua_counter, lua_touch, lua_gat, lua_concat,
}
use red_couch.Redis.{
  Redis, RedisValues, nil, cons, integer, array, static_error, Reply, ok, err, Script, eval,
  eval_str,
}
use red_couch.Redis.Fallback.{ScriptCache}

-- a script with its arguments, if it is one of these and the number of keys is right
abbrev pub script_program : LuaNumber → Script → List Bytes → Option Program
script_program l Script.store (n ∷ key ∷ cas_key ∷ op ∷ value ∷ flags ∷ cas ∷ expiry ∷ []) =
    if bytes_eq n (codes "2")
    then some (lua_store l key cas_key op value flags cas expiry)
    else none
script_program l Script.get (n ∷ key ∷ []) =
    if bytes_eq n (codes "1") then some (lua_get key) else none
script_program l Script.delete (n ∷ key ∷ cas ∷ []) =
    if bytes_eq n (codes "1") then some (lua_delete key cas) else none
script_program l Script.counter (n ∷ key ∷ cas_key ∷ delta ∷ is_decrement ∷ initial ∷ expiry ∷ []) =
    if bytes_eq n (codes "2")
    then some (lua_counter l key cas_key delta is_decrement initial expiry)
    else none
script_program l Script.touch (n ∷ key ∷ cas_key ∷ expiry ∷ []) =
    if bytes_eq n (codes "2") then some (lua_touch l key cas_key expiry) else none
script_program l Script.gat (n ∷ key ∷ cas_key ∷ expiry ∷ []) =
    if bytes_eq n (codes "2") then some (lua_gat l key cas_key expiry) else none
script_program l Script.append (n ∷ key ∷ cas_key ∷ part ∷ cas ∷ []) =
    if bytes_eq n (codes "2") then some (lua_concat l false key cas_key part cas) else none
script_program l Script.prepend (n ∷ key ∷ cas_key ∷ part ∷ cas ∷ []) =
    if bytes_eq n (codes "2") then some (lua_concat l true key cas_key part cas) else none
script_program l _ _ = none

-- A number comes back as an integer, and an ASCII text as a string that reads as that text.
abbrev pub Cells : (r : Redis) → List Cell → RedisValues → Type 0
Cells r [] nil = Unit {0}
Cells r (number n ∷ cells) (cons v vs) = (v ≡ integer n) × Cells r cells vs
Cells r (text t ∷ cells) (cons v vs) = (IsAscii t → eval_str r v ≡ t) × Cells r cells vs
Cells r _ _ = ⊥

abbrev pub Replied : (r : Redis) → Outcome → Reply → Type 0
Replied r (whole n) (ok v) = v ≡ integer n
Replied r (row cells) (ok (array vs)) = Cells r cells vs
Replied r (Outcome.failed e) (ok (static_error m)) = Unit {0}
Replied r (Outcome.failed e) (err m) = Unit {0}
Replied r _ _ = ⊥

pub record Executes (r : Redis) (ks : Keyspace r.Db) (l : LuaNumber) : Type 0 where
  pub cache : ScriptCache r
  pub replies :
      (s : Script) (args : List Bytes) (p : Program) (db : r.Db)
      → script_program l s args ≡ some p
      → Replied r (run ks p db).0 (r.call (eval s args) db).0
  pub leaves :
      (s : Script) (args : List Bytes) (p : Program) (db : r.Db)
      → script_program l s args ≡ some p
      → (r.call (eval s args) db).1 ≡ (run ks p db).1
