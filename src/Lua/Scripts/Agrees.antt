-- ===== src/Lua/Scripts/Agrees.antt =====
-- What the keys of Redis hold for a map of items, and what a change at one key does to both.
use mathlib.Core.Path.{subst}
use red_couch.Base.{
  ℕ, suc, ◌+◌, ◌^◌, ◌<◌, ◌≡◌, refl, sym, ap, Bool, true, false, Option, none, some, Bytes, codes,
  bytes_eq, leb, ◌==◌, if◌then◌else◌, Bool-cases, inl, inr, pos,
}
use red_couch.Decimal.{to_string}
use red_couch.Items.{Item, Items, due, kept, put, Verdict}
use red_couch.Lua.Keyspace.{Entry, absent, hash, integer, update}
use red_couch.Lua.Program.{Outcome, give, run_view}
use red_couch.Lua.Program.Step.{bytes_eq_refl}
use red_couch.Lua.Scripts.Blocks.{Counts, aged, gives}
use red_couch.Redis.{make_redis_key, cas_counter_key}

-- the fields of an item
pub record Written (fields : Bytes → Option Bytes) (it : Item) : Type 0 where
  pub v : fields (codes "v") ≡ some it.value
  pub f : fields (codes "f") ≡ some (to_string it.flags)
  pub c : fields (codes "c") ≡ some (to_string it.cas)
  pub small : it.cas < 10 ^ 14

-- what a key holds for an item, or for none
abbrev pub Holds : Entry → Option Item → Type 0
Holds e none = e ≡ absent
Holds e (some it) =
    (fields : Bytes → Option Bytes) × ((e ≡ hash fields it.expires) × Written fields it)

pub record Agrees (view : Bytes → Entry) (s : Items) : Type 0 where
  pub holds : (k : Bytes) → Holds (view (make_redis_key k)) (s.at k)
  pub counts : Counts (view cas_counter_key) s.counter

-- an outcome and the keys after it, against a verdict and the items after it
abbrev pub Refines : (Verdict → Outcome) → Outcome × (Bytes → Entry) → Verdict × Items → Type 0
Refines told (o, view) (verdict, s) = (o ≡ told verdict) × Agrees view s

pub counter_apart : (k : Bytes) → bytes_eq cas_counter_key (make_redis_key k) ≡ false
unfolding make_redis_key bytes_eq
counter_apart k = refl

pub apart_counter : (k : Bytes) → bytes_eq (make_redis_key k) cas_counter_key ≡ false
unfolding make_redis_key bytes_eq
apart_counter k = refl

pub same_key : (a b : Bytes) → bytes_eq (make_redis_key a) (make_redis_key b) ≡ bytes_eq a b
unfolding make_redis_key bytes_eq
same_key a b = refl

-- the keys after a change at one key, with a new CAS value
abbrev pub changed : (Bytes → Entry) → ℕ → Bytes → Entry → Bytes → Entry
changed view n k e = update (update view cas_counter_key (integer (pos n))) k e

pub put-Agrees :
    (key : Bytes) (view : Bytes → Entry) (s : Items) (e : Entry) (it : Option Item)
    → Agrees view s
    → Holds e it
    → Agrees (changed view (suc s.counter) (make_redis_key key) e) (put key it s)
put-Agrees key view s e it h new = record {
  holds = λ k. elim (Bool-cases (bytes_eq key k)) [
    | inl same ↦ rw (same_key key k, same) new
    | inr apart ↦ rw (same_key key k, apart, counter_apart k) (h.holds k)
  ];
  counts = rw (apart_counter key) (rw (bytes_eq_refl cas_counter_key) refl);
}

-- an item with an expiry: the entry that the block leaves, and what is kept
pub aged-Holds :
    (now : ℕ) (persists : Bool) (exp : ℕ) (fields : Bytes → Option Bytes) (x : Option ℕ) (it : Item)
    → Written fields it
    → (if persists then none else x) ≡ none
    → Holds (aged now persists exp fields x) (kept now (record it { expires = due now exp }))
aged-Holds now persists exp fields x it w p = elim (Bool-cases (exp == 0)) [
  | inl e ↦ rw e (no_expiry persists p)
  | inr e ↦ rw e (elim (Bool-cases (leb exp 2592000)) [
    | inl near ↦ rw near (timed (now + exp))
    | inr far ↦ rw far (timed exp)
  ])
]
  where
    written : (t : Option ℕ) → Written fields (record it { expires = t })
    written t = record { v = w.v; f = w.f; c = w.c; small = w.small }

    no_expiry :
        (b : Bool)
        → (if b then none else x) ≡ none
        → Holds
            (if b then hash fields none else hash fields x)
            (some (record it { expires = none }))
    no_expiry true p = (fields, (refl, written none))
    no_expiry false p = (fields, (ap (hash fields) p, written none))

    timed :
        (t : ℕ)
        → Holds
            (if leb t now then absent else hash fields (some t))
            (if leb t now then none else some (record it { expires = some t }))
    timed t = elim (Bool-cases (leb t now)) [
      | inl past ↦ rw past refl
      | inr coming ↦ rw coming (fields, (refl, written (some t)))
    ]

pub ends :
    (told : Verdict → Outcome) {r r' : Outcome × (Bytes → Entry)} (v : Verdict × Items)
    → r ≡ r'
    → Refines told r' v
    → Refines told r v
ends told v p h = subst (λ r. Refines told r v) (sym p) h

-- a script that ends without a call
pub turned_down :
    (told : Verdict → Outcome) (now : ℕ) (view : Bytes → Entry) (s : Items) (v : Verdict)
    → Agrees view s
    → Refines told (run_view now (give (told v)) view) (v, s)
turned_down told now view s v h = ends told (v, s) (gives now view (told v)) (refl, h)
