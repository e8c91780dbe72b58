-- ===== src/Lua/Scripts/Blocks.antt =====
-- The parts that the scripts share, as they run on a view of the keys.
use red_couch.Base.{
  ℕ, suc, ◌+◌, ◌*◌, ◌^◌, ◌<◌, ◌≡◌, refl, sym, ap, ◌∙◌, Bool, true, false, ◌&&◌, Option, none, some,
  Bytes, codes, bytes_eq, bytes_eq_iff, ltb, leb, ◌==◌, if◌then◌else◌, Bool-cases, inl, inr, pos,
  arith,
}
use red_couch.Decimal.{to_string, parse_unsigned, parse_unsigned-to_string}
use red_couch.Items.{cas_agrees}
use red_couch.Lua.Keyspace.{
  Entry, absent, hash, integer, other, persist, hget, expire, expire_at, incr, int, bulk, unread,
  documented, update, expire_at_time,
}
use red_couch.Lua.Number.{LuaNumber, IsExact}
use red_couch.Lua.Program.{Outcome, Program, give, call, run_view}
use red_couch.Lua.Program.Step.{write, read, update_same}
use red_couch.Lua.Scripts.{cas_block, differs, int_text, new_cas_block, set_expiry, expiry_block}

false-true : {b : Bool} → b ≡ false → b ≡ true → ⊥
false-true p q = cc

-- two numbers with the same text are the same
to_string-eq : (a b : ℕ) → a < 2 ^ 64 → b < 2 ^ 64 → bytes_eq (to_string a) (to_string b) ≡ (a == b)
to_string-eq a b ha hb = elim (Bool-cases (bytes_eq (to_string a) (to_string b))) [
  | inl e ↦ rw e (same ((bytes_eq_iff (to_string a) (to_string b)).0 e))
  | inr e ↦ rw e (differ e)
]
  where
    same : to_string a ≡ to_string b → true ≡ (a == b)
    same e = ground (
      arith,
      parse_unsigned-to_string (2 ^ 64) a,
      parse_unsigned-to_string (2 ^ 64) b,
      ap (parse_unsigned (2 ^ 64)) e,
    )

    numbers_eq : (a == b) ≡ true → a ≡ b
    numbers_eq q = ground arith

    differ : bytes_eq (to_string a) (to_string b) ≡ false → false ≡ (a == b)
    differ e = elim (Bool-cases (a == b)) [
      | inl q ↦ absurd (
          false-true e ((bytes_eq_iff (to_string a) (to_string b)).1 (ap to_string (numbers_eq q))))
      | inr q ↦ sym q
    ]

pub is_zero_text : (req : ℕ) → req < 2 ^ 64 → bytes_eq (to_string req) (codes "0") ≡ (req == 0)
unfolding to_string
is_zero_text req h = to_string-eq req 0 h (omega arith)

-- what an entry says of the CAS counter
abbrev pub Counts : Entry → ℕ → Type 0
Counts absent n = n ≡ 0
Counts (hash _ _) n = ⊥
Counts (integer z) n = z ≡ pos n
Counts other n = ⊥

-- an entry with an expiry, which may have passed
abbrev alive : ℕ → ℕ → (Bytes → Option Bytes) → Entry
alive now at fields = if leb at now then absent else hash fields (some at)

-- what the block on the expiry leaves of a hash
abbrev pub aged : ℕ → Bool → ℕ → (Bytes → Option Bytes) → Option ℕ → Entry
aged now persists exp fields x =
    if exp == 0
    then (if persists then hash fields none else hash fields x)
    else if leb exp 2592000
    then alive now (now + exp) fields
    else alive now exp fields

pub gives : (now : ℕ) (view : Bytes → Entry) (o : Outcome) → run_view now (give o) view ≡ (o, view)
unfolding run_view
gives now view o = refl

-- a test that a key which exists passes
pub passes : (b : Bool) (p q : Program) → (if b && false then p else q) ≡ q
passes true p q = refl
passes false p q = refl

module _ (l : LuaNumber) (exact : IsExact l) (now : ℕ) (view : Bytes → Entry) where
  new_cas_known :
      (cas_key : Bytes) (next : Bytes → Program) (n : ℕ) (e : Entry)
      → view cas_key ≡ e
      → documented now incr e ≡ (int (pos (suc n)), integer (pos (suc n)))
      → suc n < 10 ^ 14
      → run_view now (new_cas_block l cas_key next) view
        ≡ run_view now (next (to_string (suc n))) (update view cas_key (integer (pos (suc n))))
  unfolding new_cas_block int_text
  new_cas_known cas_key next n e h d small =
      write now cas_key incr _ view (int (pos (suc n))) (integer (pos (suc n))) h d tt
      ∙ ap (λ t. run_view now (next t) (update view cas_key (integer (pos (suc n)))))
          (exact.writes (suc n) small)

  pub new_cas_block_lem :
      (cas_key : Bytes) (next : Bytes → Program) (n : ℕ) (e : Entry)
      → view cas_key ≡ e
      → Counts e n
      → suc n < 10 ^ 14
      → run_view now (new_cas_block l cas_key next) view
        ≡ run_view now (next (to_string (suc n))) (update view cas_key (integer (pos (suc n))))
  unfolding documented
  new_cas_block_lem cas_key next n absent h c small =
      new_cas_known cas_key next n absent h
        (ap (λ k. (int (pos (suc k)), integer (pos (suc k)))) (sym c)) small
  new_cas_block_lem cas_key next n (integer z) h c small =
      new_cas_known cas_key next n (integer z) h (rw c (ground arith)) small
  new_cas_block_lem cas_key next n (hash _ _) h c small = absurd c
  new_cas_block_lem cas_key next n other h c small = absurd c

  -- the comparison of CAS values
  pub cas_block_lem :
      (key : Bytes) (fields : Bytes → Option Bytes) (x : Option ℕ) (c req : ℕ) (refused : Outcome)
      (next : Program)
      → view key ≡ hash fields x
      → fields (codes "c") ≡ some (to_string c)
      → c < 2 ^ 64
      → req < 2 ^ 64
      → run_view now (cas_block key (to_string req) refused next) view
        ≡ (if cas_agrees req c then run_view now next view else (refused, view))
  unfolding cas_block differs documented
  cas_block_lem key fields x c req refused next h f hc hr = elim (Bool-cases (req == 0)) [
    | inl e ↦ rw (is_zero_text req hr, e) refl
    | inr e ↦
        rw (is_zero_text req hr, e)
          (read now key (hget (codes "c")) _ view (bulk (to_string c)) h (rw f refl) tt ∙ compared)
  ]
    where
      compared :
          run_view now
            (if differs (bulk (to_string c)) (to_string req) then give refused else next)
            view
          ≡ (if c == req then run_view now next view else (refused, view))
      compared = elim (Bool-cases (c == req)) [
        | inl e ↦ rw (to_string-eq c req hc hr, e) refl
        | inr e ↦ rw (to_string-eq c req hc hr, e) (gives now view refused)
      ]

  -- the block on an expiry that is written in decimal, as a program on numbers
  expiry_block-to_string :
      (persists : Bool) (key : Bytes) (exp : ℕ) (next : Program)
      → exp < 2 ^ 32
      → expiry_block l persists key (to_string exp) next ≡ (
          if exp == 0
          then (if persists then call key persist (λ _. next) else next)
          else if leb exp 2592000
          then call key (expire (some exp)) (λ _. next)
          else call key (expire_at (some exp)) (λ _. next))
  unfolding expiry_block set_expiry
  expiry_block-to_string persists key exp next he = elim (Bool-cases (exp == 0)) [
    | inl e ↦
        rw
          (
            expiry_block,
            exact.reads exp (omega arith),
            exact.compares_lt 0 exp (omega arith) (omega arith),
            is_zero e,
            exact.compares_eq exp 0 (omega arith) (omega arith),
            e,
          )
          refl
    | inr e ↦
        rw
          (
            expiry_block,
            exact.reads exp (omega arith),
            exact.compares_lt 0 exp (omega arith) (omega arith),
            positive e,
            set_expiry,
            exact.compares_le exp 2592000 (omega arith) (omega arith),
            exact.seconds exp (omega arith),
            e,
          )
          refl
  ]
    where
      positive : (exp == 0) ≡ false → ltb 0 exp ≡ true
      positive e = ground arith

      is_zero : (exp == 0) ≡ true → ltb 0 exp ≡ false
      is_zero e = ground arith

  -- an expiry time that Redis can keep
  timed :
      (at : ℕ) (fields : Bytes → Option Bytes) (x : Option ℕ)
      → at < 2 ^ 51
      → expire_at_time now at (hash fields x) ≡ (unread, alive now at fields)
  timed at fields x h = elim (Bool-cases (leb at now)) [
    | inl e ↦ rw (in_range, e) refl
    | inr e ↦ rw (in_range, e) refl
  ]
    where
      in_range : leb (2 ^ 63) (at * 1000) ≡ false
      in_range = ground arith

  pub expiry_block_lem :
      (persists : Bool) (key : Bytes) (fields : Bytes → Option Bytes) (x : Option ℕ) (exp : ℕ)
      (next : Program)
      → view key ≡ hash fields x
      → exp < 2 ^ 32
      → now < 2 ^ 50
      → run_view now (expiry_block l persists key (to_string exp) next) view
        ≡ run_view now next (update view key (aged now persists exp fields x))
  unfolding documented
  expiry_block_lem persists key fields x exp next h he hn =
      ap (λ p. run_view now p view) (expiry_block-to_string persists key exp next he)
      ∙ elim (Bool-cases (exp == 0)) [
        | inl e ↦ rw e (no_expiry persists)
        | inr e ↦ rw e (elim (Bool-cases (leb exp 2592000)) [
          | inl small ↦ rw small (
              write now key (expire (some exp)) _ view unread _ h
                (timed (now + exp) fields x (omega arith)) tt)
          | inr large ↦ rw large (
              write now key (expire_at (some exp)) _ view unread _ h
                (timed exp fields x (omega arith)) tt)
        ])
      ]
    where
      no_expiry :
          (persists : Bool)
          → run_view now (if persists then call key persist (λ _. next) else next) view
            ≡ run_view now next
                (update view key (if persists then hash fields none else hash fields x))
      no_expiry true = write now key persist _ view unread _ h refl tt
      no_expiry false = ap (run_view now next) (sym (update_same view key (hash fields x) h))
