-- ===== src/Lua/Program/View.antt =====
-- A script's outcome, and what the keys hold after it, depend on nothing but what they held before.
use red_couch.Base.{ℕ, ◌≡◌, refl, ap, ◌∙◌, Bytes}
use red_couch.Lua.Keyspace.{Entry, Answer, nil, int, bulk, unread, raised, Keyspace}
use red_couch.Lua.Program.{Outcome, Program, give, call, proceed, run, run_view}

module _ {Db : Type 0} (ks : Keyspace Db) where
  -- what an observer sees of the end of a script
  abbrev pub seen : Outcome × Db → Outcome × (Bytes → Entry)
  seen (o, db) = (o, ks.entry db)

  seen-proceed :
      (a : Answer) (db : Db) (rest : Outcome × Db)
      → seen (proceed a db rest) ≡ proceed a (ks.entry db) (seen rest)
  seen-proceed nil db rest = refl
  seen-proceed (int n) db rest = refl
  seen-proceed (bulk s) db rest = refl
  seen-proceed unread db rest = refl
  seen-proceed (raised e) db rest = refl

  same_end :
      (next : Answer → Program) {a a' : Answer} {v v' : Bytes → Entry} {n n' : ℕ}
      → a ≡ a'
      → v ≡ v'
      → n ≡ n'
      → proceed a v (run_view n (next a) v) ≡ proceed a' v' (run_view n' (next a') v')
  same_end next p q r = λ i. proceed (p i) (q i) (run_view (r i) (next (p i)) (q i))

  pub seen-run : (p : Program) (db : Db) → seen (run ks p db) ≡ run_view (ks.now db) p (ks.entry db)
  unfolding run run_view
  seen-run (give o) db = refl
  seen-run (call k cmd next) db =
      let (a, db') = ks.call k cmd db in
      seen-proceed a db' (run ks (next a) db')
      ∙ ap (proceed a (ks.entry db')) (seen-run (next a) db')
      ∙ same_end next (ks.answers k cmd db) (ks.changes k cmd db) (ks.stands_still k cmd db)

  proceed-now :
      (a : Answer) (db : Db) (rest : Outcome × Db) (n : ℕ)
      → ks.now db ≡ n
      → ks.now rest.1 ≡ n
      → ks.now (proceed a db rest).1 ≡ n
  proceed-now nil db rest n h k = k
  proceed-now (int m) db rest n h k = k
  proceed-now (bulk s) db rest n h k = k
  proceed-now unread db rest n h k = k
  proceed-now (raised e) db rest n h k = h

  -- the time stands still while a script runs
  pub run-stands_still : (p : Program) (db : Db) → ks.now (run ks p db).1 ≡ ks.now db
  unfolding run
  run-stands_still (give o) db = refl
  run-stands_still (call k cmd next) db =
      let (a, db') = ks.call k cmd db in
      let still = ks.stands_still k cmd db in
      proceed-now a db' (run ks (next a) db') (ks.now db) still
        (run-stands_still (next a) db' ∙ still)
