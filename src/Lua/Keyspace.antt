-- ===== src/Lua/Keyspace.antt =====
-- The Redis commands that the scripts call on a key, and what their documentation says of them.
-- `entry` is what a key holds, with the keys that have expired gone; while a script runs, the clock
-- stands still.
use red_couch.Base.{
  ℕ, ◌+◌, ◌-◌, ◌*◌, ◌^◌, ◌≡◌, Bool, false, Option, none, some, List, [], ◌∷◌, Bytes, codes,
  bytes_eq, leb, if◌then◌else◌, ℤ, pos, negsuc, zero, suc,
}

-- a hash with its expiry as a Unix time, an integer in a string, or another value
pub data Entry : Type 0 where
  absent : Entry
  hash : (fields : Bytes → Option Bytes) → (expires : Option ℕ) → Entry
  integer : ℤ → Entry
  other : Entry

pub data KeyCommand : Type 0 where
  exists persist del incr : KeyCommand
  hget : (field : Bytes) → KeyCommand
  hset : List (Bytes × Bytes) → KeyCommand
  -- the seconds that the argument reads as
  expire : Option ℕ → KeyCommand
  expire_at : Option ℕ → KeyCommand

pub data Answer : Type 0 where
  nil : Answer
  int : ℤ → Answer
  bulk : Bytes → Answer
  -- an answer that the scripts do not look at
  unread : Answer
  -- an error
  raised : Bytes → Answer

abbrev pub wrong_type : Answer
wrong_type = raised (codes "WRONGTYPE Operation against a key holding the wrong kind of value")

abbrev pub set_field : Bytes × Bytes → (Bytes → Option Bytes) → Bytes → Option Bytes
set_field (f, v) fields g = if bytes_eq f g then some v else fields g

abbrev pub set_fields : List (Bytes × Bytes) → (Bytes → Option Bytes) → Bytes → Option Bytes
set_fields [] fields = fields
set_fields (fv ∷ fvs) fields = set_fields fvs (set_field fv fields)

abbrev pub no_fields : Bytes → Option Bytes
no_fields f = none

abbrev pub succ : ℤ → ℤ
succ (pos n) = pos (suc n)
succ (negsuc zero) = pos zero
succ (negsuc (suc n)) = negsuc n

abbrev pub at_maximum : ℤ → Bool
at_maximum (pos n) = leb (2 ^ 63 - 1) n
at_maximum (negsuc n) = false

abbrev bulk_or_nil : Option Bytes → Answer
bulk_or_nil none = nil
bulk_or_nil (some v) = bulk v

-- an entry with another expiry
abbrev pub with_expiry : Option ℕ → Entry → Entry
with_expiry x (hash fields _) = hash fields x
with_expiry x e = e

-- The expiry is kept in milliseconds, in 63 bits. A time that has passed deletes the key.
abbrev pub expire_at_time : ℕ → ℕ → Entry → Answer × Entry
expire_at_time now at absent = (unread, absent)
expire_at_time now at e =
    if leb (2 ^ 63) (at * 1000)
    then (raised (codes "ERR invalid expire time"), e)
    else if leb at now
    then (unread, absent)
    else (unread, with_expiry (some at) e)

-- the answer and the key's new entry, at a time
unfoldable pub documented : ℕ → KeyCommand → Entry → Answer × Entry
documented now exists absent = (int (pos 0), absent)
documented now exists e = (int (pos 1), e)
documented now (hget f) absent = (nil, absent)
documented now (hget f) (hash fields x) = (bulk_or_nil (fields f), hash fields x)
documented now (hget f) e = (wrong_type, e)
documented now (hset fvs) absent = (unread, hash (set_fields fvs no_fields) none)
documented now (hset fvs) (hash fields x) = (unread, hash (set_fields fvs fields) x)
documented now (hset fvs) e = (wrong_type, e)
documented now incr absent = (int (pos 1), integer (pos 1))
documented now incr (integer n) =
    if at_maximum n
    then (raised (codes "ERR increment or decrement would overflow"), integer n)
    else (int (succ n), integer (succ n))
documented now incr (hash fields x) = (wrong_type, hash fields x)
documented now incr other = (raised (codes "ERR value is not an integer or out of range"), other)
documented now (expire none) e = (raised (codes "ERR value is not an integer or out of range"), e)
documented now (expire (some s)) e = expire_at_time now (now + s) e
documented now (expire_at none) e =
    (raised (codes "ERR value is not an integer or out of range"), e)
documented now (expire_at (some at)) e = expire_at_time now at e
documented now persist e = (unread, with_expiry none e)
documented now del absent = (int (pos 0), absent)
documented now del e = (int (pos 1), absent)

-- a view of the keys, with one entry changed
abbrev pub update : (Bytes → Entry) → Bytes → Entry → Bytes → Entry
update view k e k' = if bytes_eq k k' then e else view k'

pub record Keyspace (Db : Type 0) : Type 0 where
  pub call : Bytes → KeyCommand → Db → Answer × Db
  pub entry : Db → Bytes → Entry
  pub now : Db → ℕ
  pub answers :
      (k : Bytes) (cmd : KeyCommand) (db : Db)
      → (call k cmd db).0 ≡ (documented (now db) cmd (entry db k)).0
  pub changes :
      (k : Bytes) (cmd : KeyCommand) (db : Db)
      → entry (call k cmd db).1 ≡ update (entry db) k (documented (now db) cmd (entry db k)).1
  pub stands_still : (k : Bytes) (cmd : KeyCommand) (db : Db) → now (call k cmd db).1 ≡ now db
