-- ===== src/Redis/Fallback.antt =====
-- EVALSHA with its fallback, as `eval_lua` of src/lib.rs makes it.
use red_couch.Base.{
  ◌≡◌, refl, ap, ◌⊎◌, inl, inr, true, false, List, [], ◌∷◌, ◌++◌, Bytes, codes, starts_with,
  contains, Bool-cases, arith,
}
use red_couch.Redis.{
  Redis, static_error, Reply, ok, err, Script, evalsha, eval, is_noscript, eval_lua,
}

-- an error with this message, in either of the forms in which the crate hands errors on
abbrev pub IsError : Reply → Bytes → Type 0
IsError reply message = (reply ≡ err message) ⊎ (reply ≡ ok (static_error message))

-- What the documentation of EVALSHA says: it does what EVAL does with the script's source, or the
-- script is not cached, and then it replies with an error whose message begins with NOSCRIPT and
-- changes nothing. An error of a script itself has no NOSCRIPT in its message.
pub record ScriptCache (r : Redis) : Type 0 where
  pub cached_or_not :
      (s : Script) (args : List Bytes) (db : r.Db)
      → (r.call (evalsha s args) db ≡ r.call (eval s args) db)
        ⊎ ((rest : Bytes) × (IsError (r.call (evalsha s args) db).0 (codes "NOSCRIPT" ++ rest)
              × ((r.call (evalsha s args) db).1 ≡ db)))
  pub eval_replies :
      (s : Script) (args : List Bytes) (db : r.Db) (before rest : Bytes)
      → IsError (r.call (eval s args) db).0 (before ++ (codes "NOSCRIPT" ++ rest))
      → ⊥

IsError-is_noscript :
    (reply : Reply) (rest : Bytes)
    → IsError reply (codes "NOSCRIPT" ++ rest)
    → is_noscript reply ≡ true
unfolding is_noscript contains
IsError-is_noscript reply rest (inl e) = ap is_noscript e
IsError-is_noscript reply rest (inr e) = ap is_noscript e

starts_with-split :
    (text part : Bytes) → starts_with text part ≡ true → (rest : Bytes) × (text ≡ part ++ rest)
unfolding starts_with
starts_with-split text [] h = (text, refl)
starts_with-split [] (y ∷ ys) h = absurd (ground arith)
starts_with-split (x ∷ xs) (y ∷ ys) h =
    let (rest, e) = starts_with-split xs ys (ground arith) in
    let same : x ≡ y = ground arith in (rest, λ i. same i ∷ e i)

-- a text is where it is found
contains-split :
    (text part : Bytes)
    → contains text part ≡ true
    → (before : Bytes) × (rest : Bytes) × (text ≡ before ++ (part ++ rest))
unfolding contains
contains-split [] part h = let (rest, e) = starts_with-split [] part h in ([], rest, e)
contains-split (x ∷ xs) part h = elim (Bool-cases (starts_with (x ∷ xs) part)) [
  | inl here ↦ let (rest, e) = starts_with-split (x ∷ xs) part here in ([], rest, e)
  | inr later ↦
      let (before, rest, e) = contains-split xs part (ground arith) in
      (x ∷ before, rest, ap (λ l. x ∷ l) e)
]

-- a reply that is taken for NOSCRIPT has it in its message
is_noscript-IsError :
    (reply : Reply)
    → is_noscript reply ≡ true
    → (before : Bytes) × (rest : Bytes) × IsError reply (before ++ (codes "NOSCRIPT" ++ rest))
unfolding is_noscript
is_noscript-IsError (err e) h =
    let (before, rest, split) = contains-split e (codes "NOSCRIPT") h in
    (before, rest, inl (ap err split))
is_noscript-IsError (ok (static_error e)) h =
    let (before, rest, split) = contains-split e (codes "NOSCRIPT") h in
    (before, rest, inr (ap (λ m. ok (static_error m)) split))
is_noscript-IsError (ok _) h = absurd (ground arith)

eval-loud :
    (r : Redis) (c : ScriptCache r) (s : Script) (args : List Bytes) (db : r.Db)
    → is_noscript (r.call (eval s args) db).0 ≡ false
eval-loud r c s args db = elim (Bool-cases (is_noscript (r.call (eval s args) db).0)) [
  | inl taken ↦
      let (before, rest, e) = is_noscript-IsError (r.call (eval s args) db).0 taken in
      absurd (c.eval_replies s args db before rest e)
  | inr loud ↦ loud
]

-- Whether the script is cached or not, the reply and the database after `eval_lua` are those of
-- one EVAL of the script. Where it is not, EVALSHA answers with an error whose message begins with
-- NOSCRIPT, in either form of an error, and changes nothing; an error of a script has no NOSCRIPT in
-- its message.
pub eval_lua_lem :
    (r : Redis) (c : ScriptCache r) (s : Script) (args : List Bytes) (db : r.Db)
    → eval_lua r s args db ≡ r.call (eval s args) db
unfolding eval_lua
eval_lua_lem r c s args db = elim (c.cached_or_not s args db) [
  | inl same ↦ rw (same, eval-loud r c s args db)
  | inr (rest, (no_script, kept)) ↦
      rw (IsError-is_noscript (r.call (evalsha s args) db).0 rest no_script, kept)
]
