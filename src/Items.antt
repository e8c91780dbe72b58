-- ===== src/Items.antt =====
-- What the program promises of its items: a map from keys to values with flags, an expiry and a CAS
-- value, which is fresh at each change. This is the description that the scripts of src/lib.rs are
-- held against.
use red_couch.Decimal.{to_string, parse_unsigned}
use red_couch.Base.{
  ◌-◌, ◌<◌, ◌^◌, [], ℕ, suc, ◌+◌, ◌≡◌, Bool, ◌||◌, Option, none, some, Bytes, ◌++◌, bytes_eq, ltb,
  leb, ◌==◌, if◌then◌else◌,
}

pub record Item : Type 0 where
  pub value : Bytes
  pub flags : ℕ
  pub cas : ℕ
  pub expires : Option ℕ

pub record Items : Type 0 where
  pub at : Bytes → Option Item
  pub counter : ℕ

pub data Mode : Type 0 where
  set add replace : Mode

-- how a request ends: done with a CAS value, or refused
pub data Verdict : Type 0 where
  done : ℕ → Verdict
  missing mismatch : Verdict

-- an expiry of up to 30 days is relative, a larger one is a Unix time, and 0 is none
abbrev pub due : ℕ → ℕ → Option ℕ
due now exp = if exp == 0 then none else if leb exp 2592000 then some (now + exp) else some exp

-- what is left of an item: nothing, if it is due
abbrev pub kept : ℕ → Item → Option Item
kept now it = elim (it.expires) [ none ↦ some it | some t ↦ if leb t now then none else some it ]

abbrev pub put : Bytes → Option Item → Items → Items
put key it s = record { at = λ k. if bytes_eq key k then it else s.at k; counter = suc s.counter }

abbrev pub cas_agrees : ℕ → ℕ → Bool
cas_agrees req cas = req == 0 || cas == req

-- the item of a store that goes through
abbrev pub new_item : Bytes → ℕ → ℕ → ℕ → Items → Item
new_item value flags now exp s = record {
  value = value;
  flags = flags;
  cas = suc s.counter;
  expires = due now exp;
}

-- may the store go through?
abbrev pub store_verdict : Mode → ℕ → Option Item → Verdict → Verdict
store_verdict replace req none fresh = missing
store_verdict mode req none fresh = if req == 0 then fresh else missing
store_verdict add req (some it) fresh = mismatch
store_verdict mode req (some it) fresh = if cas_agrees req it.cas then fresh else mismatch

-- a request that is refused changes nothing
abbrev pub settle : Verdict → Items → Items → Verdict × Items
settle (done cas) s s' = (done cas, s')
settle missing s s' = (missing, s)
settle mismatch s s' = (mismatch, s)

abbrev pub store_item : ℕ → Mode → Bytes → Bytes → ℕ → ℕ → ℕ → Items → Verdict × Items
store_item now mode key value flags req exp s =
    settle (store_verdict mode req (s.at key) (done (suc s.counter))) s
      (put key (kept now (new_item value flags now exp s)) s)

-- a key with another item, or none, and the same counter
abbrev pub remove : Bytes → Items → Items
remove key s = record { at = λ k. if bytes_eq key k then none else s.at k; counter = s.counter }

-- 0 stands for the CAS value of an item that is gone
abbrev pub delete_found : Bytes → ℕ → Items → Option Item → Verdict × Items
delete_found key req s none = (missing, s)
delete_found key req s (some it) =
    if cas_agrees req it.cas then (done 0, remove key s) else (mismatch, s)

abbrev pub delete_item : Bytes → ℕ → Items → Verdict × Items
delete_item key req s = delete_found key req s (s.at key)

-- an item that is there gets a new expiry and CAS value
abbrev pub touch_found : ℕ → Bytes → ℕ → Items → Option Item → Verdict × Items
touch_found now key exp s none = (missing, s)
touch_found now key exp s (some it) = (
  done (suc s.counter),
  put key (some (record it { expires = due now exp; cas = suc s.counter })) s,
)

abbrev pub touch_item : ℕ → Bytes → ℕ → Items → Verdict × Items
touch_item now key exp s = touch_found now key exp s (s.at key)

-- does the expiry lie ahead?
abbrev pub lies_ahead : ℕ → ℕ → Bool
lies_ahead now exp = leb exp 2592000 || ltb now exp

-- a value is extended at one of its ends
abbrev pub concat_found : Bool → Bytes → Bytes → ℕ → Items → Option Item → Verdict × Items
concat_found prepends key part req s none = (missing, s)
concat_found prepends key part req s (some it) =
    if cas_agrees req it.cas
    then (
      done (suc s.counter),
      put key
          (some (record it {
            value = if prepends then part ++ it.value else it.value ++ part;
            cas = suc s.counter;
          }))
          s,
    )
    else (mismatch, s)

abbrev pub concat_item : Bool → Bytes → Bytes → ℕ → Items → Verdict × Items
concat_item prepends key part req s = concat_found prepends key part req s (s.at key)

-- a count goes up, or down to 0 at the least
abbrev pub moved : Bool → ℕ → ℕ → ℕ
moved downwards delta n = if downwards then n - delta else n + delta

abbrev pub count_known : Bytes → ℕ → Bool → Items → Item → Option ℕ → Verdict × Items
count_known key delta downwards s it none = (mismatch, s)
count_known key delta downwards s it (some n) = (
  done (suc s.counter),
  put key (some (record it { value = to_string (moved downwards delta n); cas = suc s.counter })) s,
)

abbrev pub known_text : ℕ → Bool → Option ℕ → Bytes
known_text delta downwards none = []
known_text delta downwards (some n) = to_string (moved downwards delta n)

-- The count of a value in decimal changes, and a value that is none is a mismatch. Where there is no
-- item, one is made, unless the expiry is the largest one.
abbrev pub count_found : ℕ → Bytes → ℕ → Bool → ℕ → ℕ → Items → Option Item → Verdict × Items
count_found now key delta downwards initial exp s none =
    if exp == 4294967295
    then (missing, s)
    else (done (suc s.counter), put key (kept now (new_item (to_string initial) 0 now exp s)) s)
count_found now key delta downwards initial exp s (some it) =
    count_known key delta downwards s it (parse_unsigned (2 ^ 53) it.value)

abbrev pub count_item : ℕ → Bytes → ℕ → Bool → ℕ → ℕ → Items → Verdict × Items
count_item now key delta downwards initial exp s =
    count_found now key delta downwards initial exp s (s.at key)

-- the text of a count after its change
abbrev pub count_text : ℕ → Bool → ℕ → Option Item → Bytes
count_text delta downwards initial none = to_string initial
count_text delta downwards initial (some it) =
    known_text delta downwards (parse_unsigned (2 ^ 53) it.value)

-- an item, if there is one, holds a count in decimal that a change leaves in range
abbrev pub Countable : ℕ → Option Item → Type 0
Countable delta none = Unit {0}
Countable delta (some it) = (n : ℕ) × ((it.value ≡ to_string n) × (n + delta < 2 ^ 53))
