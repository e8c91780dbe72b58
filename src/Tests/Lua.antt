-- ===== src/Tests/Lua.antt =====
-- The scripts on a small database, with Lua's numbers as natural numbers.
use red_couch.Base.{
  ℕ, zero, ◌+◌, ◌-◌, ◌^◌, ◌≡◌, refl, true, Option, none, some, [], Bytes, codes, ltb, leb, ◌==◌, ℤ,
  pos, negsuc, arith, bytes_eq,
}
use red_couch.Decimal.{to_string, parse_unsigned, parse_unsigned-to_string}
use red_couch.Items.{
  Item, Items, Mode, replace, done, put, store_item, delete_item, touch_item, concat_item,
  count_item, count_text, Countable,
}
use red_couch.Lua.Keyspace.{
  Entry, absent, hash, Keyspace, documented, update, set_fields, no_fields,
}
use red_couch.Lua.Number.{LuaNumber, IsExact}
use red_couch.Lua.Program.{run}
use red_couch.Lua.Program.View.{seen}
use red_couch.Lua.Refinement.{
  Implements, lua_store-Implements, lua_get-found, lua_get-lua_store, lua_delete-Implements,
  lua_concat-Implements, lua_counter-Implements, lua_touch-Implements, lua_gat-Implements,
  lua_get-lua_touch,
}
use red_couch.Lua.Scripts.{
  lua_store, lua_get, lua_delete, lua_counter, lua_touch, lua_gat, lua_concat, item_fields,
}
use red_couch.Lua.Scripts.Agrees.{Written, Agrees, changed, put-Agrees}
use red_couch.Lua.Scripts.Concat.{extended}
use red_couch.Lua.Scripts.Count.{told_count, direction}
use red_couch.Lua.Scripts.Read.{found}
use red_couch.Lua.Scripts.Remove.{deleted}
use red_couch.Lua.Scripts.Revise.{touched, got, cas_field}
use red_couch.Lua.Scripts.Store.{stored, mode_text}
use red_couch.Redis.{make_redis_key, cas_counter_key}

abbrev pub magnitude : ℤ → ℕ
magnitude (pos n) = n
magnitude (negsuc n) = zero

abbrev pub naturals : LuaNumber
naturals = record {
  Num = ℕ;
  tonumber = parse_unsigned (2 ^ 53);
  of_int = magnitude;
  lt = ltb;
  le = leb;
  num_eq = λ a b. a == b;
  add = λ a b. a + b;
  sub = λ a b. a - b;
  tostring = to_string;
  format_whole = to_string;
  as_seconds = some;
}

pub naturals-IsExact : IsExact naturals
naturals-IsExact = record {
  reads = λ n h. parse_unsigned-to_string (2 ^ 53) n (omega arith);
  compares_lt = λ a b _ _. refl;
  compares_le = λ a b _ _. refl;
  compares_eq = λ a b _ _. refl;
  adds = λ a b _. refl;
  subtracts = λ a b _ _. refl;
  writes = λ n _. refl;
  formats = λ n _. refl;
  seconds = λ n _. refl;
}

-- in November 2023
abbrev pub clock : ℕ
clock = 1700000000

abbrev pub keyspace : Keyspace (Bytes → Entry)
keyspace = record {
  call = λ k cmd db. ((documented clock cmd (db k)).0, update db k (documented clock cmd (db k)).1);
  entry = λ db. db;
  now = λ _. clock;
  answers = λ k cmd db. refl;
  changes = λ k cmd db. refl;
  stands_still = λ k cmd db. refl;
}

abbrev pub item_k : Item
item_k = record { value = codes "5"; flags = 3; cas = 1; expires = none }

abbrev pub no_items : Items
no_items = record { at = λ k. none; counter = 0 }

abbrev pub items : Items
items = put (codes "k") (some item_k) no_items

abbrev pub fields_k : Bytes → Option Bytes
fields_k = set_fields (item_fields (codes "5") (codes "3") (codes "1")) no_fields

abbrev pub stocked : Bytes → Entry
stocked = changed (λ k. absent) 1 (make_redis_key (codes "k")) (hash fields_k none)

fields_k-Written : Written fields_k item_k
unfolding bytes_eq to_string
fields_k-Written = record { v = refl; f = refl; c = refl; small = omega arith }

pub stocked-Agrees : Agrees stocked items
stocked-Agrees =
    put-Agrees (codes "k") (λ k. absent) no_items (hash fields_k none) (some item_k)
      (record { holds = λ k. refl; counts = refl }) (fields_k, (refl, fields_k-Written))

five : (codes "5") ≡ to_string 5
unfolding to_string
five = refl

lua_get-found_example :
    seen keyspace (run keyspace (lua_get (make_redis_key (codes "k"))) stocked)
    ≡ (found (items.at (codes "k")), stocked)
lua_get-found_example = lua_get-found keyspace stocked items stocked-Agrees (codes "k")

lua_store-Implements_example :
    Implements keyspace stored
      (lua_store naturals
        (make_redis_key (codes "k"))
        cas_counter_key
        (mode_text replace)
        (codes "new")
        (to_string 7)
        (to_string 1)
        (to_string 60))
      stocked
      (store_item clock replace (codes "k") (codes "new") 7 1 60 items)
lua_store-Implements_example =
    lua_store-Implements keyspace naturals naturals-IsExact stocked items stocked-Agrees
      (omega arith) (omega arith) replace (codes "k") (codes "new") 7 1 60 (omega arith)
      (omega arith)

lua_get-lua_store_example :
    (run keyspace
      (lua_get (make_redis_key (codes "k")))
      (run keyspace
        (lua_store naturals
          (make_redis_key (codes "k"))
          cas_counter_key
          (mode_text Mode.set)
          (codes "new")
          (to_string 7)
          (to_string 0)
          (to_string 60))
        stocked).1).0
    ≡ found ((store_item clock Mode.set (codes "k") (codes "new") 7 0 60 items).1.at (codes "k"))
lua_get-lua_store_example =
    lua_get-lua_store keyspace naturals naturals-IsExact stocked items stocked-Agrees (omega arith)
      (omega arith) Mode.set (codes "k") (codes "new") 7 0 60 (omega arith) (omega arith)
      (codes "k")

lua_delete-Implements_example :
    Implements keyspace deleted
      (lua_delete (make_redis_key (codes "k")) (to_string 1))
      stocked
      (delete_item (codes "k") 1 items)
lua_delete-Implements_example =
    lua_delete-Implements keyspace naturals naturals-IsExact stocked items stocked-Agrees
      (omega arith) (omega arith) (codes "k") 1 (omega arith)

lua_concat-Implements_example :
    Implements keyspace extended
      (lua_concat naturals true
        (make_redis_key (codes "k"))
        cas_counter_key
        (codes "ab")
        (to_string 0))
      stocked
      (concat_item true (codes "k") (codes "ab") 0 items)
lua_concat-Implements_example =
    lua_concat-Implements keyspace naturals naturals-IsExact stocked items stocked-Agrees
      (omega arith) (omega arith) true (codes "k") (codes "ab") 0 (omega arith)

k-Countable : Countable 2 (items.at (codes "k"))
unfolding bytes_eq
k-Countable = (5, (five, omega arith))

lua_counter-Implements_example :
    Implements keyspace
      (told_count (count_text 2 true 0 (items.at (codes "k"))))
      (lua_counter naturals
        (make_redis_key (codes "k"))
        cas_counter_key
        (to_string 2)
        (direction true)
        (to_string 0)
        (to_string 60))
      stocked
      (count_item clock (codes "k") 2 true 0 60 items)
lua_counter-Implements_example =
    lua_counter-Implements keyspace naturals naturals-IsExact stocked items stocked-Agrees
      (omega arith) (omega arith) (codes "k") 2 true 0 60 (omega arith) k-Countable

lua_touch-Implements_example :
    Implements keyspace touched
      (lua_touch naturals (make_redis_key (codes "k")) cas_counter_key (to_string 60))
      stocked
      (touch_item clock (codes "k") 60 items)
lua_touch-Implements_example =
    lua_touch-Implements keyspace naturals naturals-IsExact stocked items stocked-Agrees
      (omega arith) (omega arith) (codes "k") 60 (omega arith) refl

lua_gat-Implements_example :
    ((run keyspace
        (lua_gat naturals (make_redis_key (codes "k")) cas_counter_key (to_string 60))
        stocked).0
      ≡ got 2 (items.at (codes "k")))
    × Agrees
        (run keyspace
          (lua_gat naturals (make_redis_key (codes "k")) cas_counter_key (to_string 60))
          stocked).1
        (touch_item clock (codes "k") 60 items).1
lua_gat-Implements_example =
    lua_gat-Implements keyspace naturals naturals-IsExact stocked items stocked-Agrees (omega arith)
      (omega arith) (codes "k") 60 (omega arith) refl

k_item : items.at (codes "k") ≡ some item_k
unfolding bytes_eq
k_item = refl

lua_get-lua_touch_example :
    ((run keyspace
        (lua_touch naturals (make_redis_key (codes "k")) cas_counter_key (to_string 1600000000))
        stocked).0
      ≡ touched (done 2))
    × ((run keyspace
          (lua_get (make_redis_key (codes "k")))
          (run keyspace
            (lua_touch naturals (make_redis_key (codes "k")) cas_counter_key (to_string 1600000000))
            stocked).1).0
        ≡ found (some (record { value = []; flags = 0; cas = 2; expires = none })))
    × ((run keyspace
            (lua_touch naturals (make_redis_key (codes "k")) cas_counter_key (to_string 1600000000))
            stocked).1
          (make_redis_key (codes "k"))
        ≡ hash (set_fields (cas_field (to_string 2)) no_fields) none)
lua_get-lua_touch_example =
    lua_get-lua_touch keyspace naturals naturals-IsExact stocked items stocked-Agrees (omega arith)
      (omega arith) (codes "k") 1600000000 item_k (omega arith) k_item refl
