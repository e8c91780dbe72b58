-- ===== src/Lua/Program.antt =====
-- A script is a tree of the calls that it makes: each `redis.call` goes on with the answer, and an
-- error ends the script.
pub mod View
pub mod Step
use red_couch.Base.{ℕ, List, Bytes, ℤ}
use red_couch.Lua.Keyspace.{
  Entry, KeyCommand, Answer, nil, int, bulk, unread, raised, Keyspace, documented, update,
}

-- a part of the table that a script returns
pub data Cell : Type 0 where
  number : ℤ → Cell
  text : Bytes → Cell

-- what a script returns: a number or a table, or an error
pub data Outcome : Type 0 where
  whole : ℤ → Outcome
  row : List Cell → Outcome
  failed : Bytes → Outcome

pub data Program : Type 0 where
  give : Outcome → Program
  call : Bytes → KeyCommand → (Answer → Program) → Program

-- the script goes on with an answer, unless that is an error
abbrev pub proceed {ℓ} : {A : Type ℓ} → Answer → A → (Outcome × A) → Outcome × A
proceed (raised e) db next = (failed e, db)
proceed _ db next = next

module _ {Db : Type 0} (ks : Keyspace Db) where
  unfoldable pub run : Program → Db → Outcome × Db
  run (give o) db = (o, db)
  run (call k cmd next) db =
      let (a, db') = ks.call k cmd db in let rest = run (next a) db' in proceed a db' rest

-- the same on a view of the keys
unfoldable pub run_view : ℕ → Program → (Bytes → Entry) → Outcome × (Bytes → Entry)
run_view now (give o) view = (o, view)
run_view now (call k cmd next) view =
    let (a, e) = documented now cmd (view k) in
    let rest = run_view now (next a) (update view k e) in proceed a (update view k e) rest
