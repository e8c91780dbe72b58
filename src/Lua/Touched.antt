-- ===== src/Lua/Touched.antt =====
-- `ascii_retrieval` of src/ascii.rs for `gat` and `gats`, together with LUA_GAT, against the map of
-- items.
use mathlib.Core.Path.{subst}
use red_couch.Base.{
  ℕ, suc, ◌+◌, ◌^◌, ◌≤◌, ◌<◌, ◌≡◌, refl, sym, ap, ◌∙◌, Bool, true, false, if◌then◌else◌, length,
  Option, none, some, List, [], ◌∷◌, ◌++◌, Bytes, codes, bytes_eq, append_assoc, arith, Bool-cases,
  inl, inr,
}
use red_couch.Ascii.Command.{RetrievalOp, gat, gats}
use red_couch.Ascii.Handlers.{tell}
use red_couch.Ascii.Handlers.Retrieve.{
  include_cas, is_gat, retrieval_reply, retrieve_one, next_key, ascii_retrieval,
}
use red_couch.Decimal.{to_string}
use red_couch.Items.{Items, Item, touch_found, touch_item, lies_ahead}
use red_couch.Lua.Executes.{Executes, Replied, script_program}
use red_couch.Lua.Keyspace.{Keyspace}
use red_couch.Lua.Number.{LuaNumber, IsExact}
use red_couch.Lua.Program.{Program}
use red_couch.Lua.Program.Step.{bytes_eq_refl}
use red_couch.Lua.Program.View.{run-stands_still}
use red_couch.Lua.Refinement.{lua_gat-Implements}
use red_couch.Lua.Retrieved.{HoldsBytes, block_of, Retrieves, shown}
use red_couch.Lua.Scripts.{lua_gat}
use red_couch.Lua.Scripts.Agrees.{Agrees}
use red_couch.Lua.Scripts.Read.{found}
use red_couch.Lua.Scripts.Revise.{got}
use red_couch.Lua.Served.{served}
use red_couch.Redis.{Redis, Script, eval_lua, make_redis_key, cas_counter_key}
use red_couch.Redis.Fallback.{eval_lua_lem}
use red_couch.Server.Handler.{Br, Conn, Handled}

-- the items after a touch of each key in turn
abbrev pub touched_all : ℕ → ℕ → List Bytes → Items → Items
touched_all now exp [] s = s
touched_all now exp (key ∷ keys) s = touched_all now exp keys (touch_item now key exp s).1

-- the block of each item as its touch leaves it, and `END`
abbrev pub touched_answer : Bool → ℕ → ℕ → List Bytes → Items → Bytes
touched_answer with_cas now exp [] s = codes "END\r\n"
touched_answer with_cas now exp (key ∷ keys) s =
    let s' = (touch_item now key exp s).1 in
    block_of with_cas key (s'.at key) ++ touched_answer with_cas now exp keys s'

-- an item with another CAS value
abbrev refreshed : ℕ → Option Item → Option Item
refreshed cas none = none
refreshed cas (some it) = some (record it { cas = cas })

got-found : (cas : ℕ) (it : Option Item) → got cas it ≡ found (refreshed cas it)
got-found cas none = refl
got-found cas (some it) = refl

refreshed-HoldsBytes : (cas : ℕ) (it : Option Item) → HoldsBytes it → HoldsBytes (refreshed cas it)
refreshed-HoldsBytes cas none h = tt
refreshed-HoldsBytes cas (some it) h = h

module _ (now exp : ℕ) (key : Bytes) (s : Items) where
  block_of-touch_found :
      (with_cas : Bool) (it : Option Item)
      → s.at key ≡ it
      → block_of with_cas key ((touch_found now key exp s it).1.at key)
        ≡ block_of with_cas key (refreshed (suc s.counter) it)
  block_of-touch_found with_cas none e = rw e refl
  block_of-touch_found with_cas (some it) e = rw (bytes_eq_refl key) refl

  touch_found-HoldsBytes :
      (it : Option Item)
      → HoldsBytes it
      → ((k : Bytes) → HoldsBytes (s.at k))
      → (k : Bytes) → HoldsBytes ((touch_found now key exp s it).1.at k)
  touch_found-HoldsBytes none h all k = all k
  touch_found-HoldsBytes (some it) h all k = elim (Bool-cases (bytes_eq key k)) [
    | inl same ↦ rw same h
    | inr apart ↦ rw apart (all k)
  ]

  touch_found-counter :
      (it : Option Item) → (touch_found now key exp s it).1.counter ≤ suc s.counter
  touch_found-counter none = omega arith
  touch_found-counter (some it) = omega arith

-- the handler has run in this time, and the time is the same
abbrev Touches : {r : Redis} → Keyspace r.Db → ℕ → Bytes → Bytes → Items → Handled r → Type 0
Touches ks now before text s h = Retrieves ks before text s h × (ks.now h.1.db ≡ now)

module _ {r : Redis} (ks : Keyspace r.Db) (l : LuaNumber) (executes : Executes r ks l)
    (exact : IsExact l) where
  eval_lua-stands_still :
      (s : Script) (args : List Bytes) (p : Program) (db : r.Db)
      → script_program l s args ≡ some p
      → ks.now (eval_lua r s args db).1 ≡ ks.now db
  eval_lua-stands_still s args p db e =
      ap (λ x. ks.now x.1) (eval_lua_lem r executes.cache s args db)
      ∙ ap ks.now (executes.leaves s args p db e)
      ∙ run-stands_still ks p db

  abbrev gat_args : Bytes → ℕ → List Bytes
  gat_args key exp = codes "2" ∷ make_redis_key key ∷ cas_counter_key ∷ to_string exp ∷ []

  gat_script :
      (key : Bytes) (exp : ℕ)
      → script_program l Script.gat (gat_args key exp)
        ≡ some (lua_gat l (make_redis_key key) cas_counter_key (to_string exp))
  unfolding bytes_eq
  gat_script key exp = refl

  one_key_Touches :
      (with_cas : Bool) (key : Bytes) (exp : ℕ) (s : Items) (c c' : Conn r)
      → Agrees (ks.entry c.db) s
      → HoldsBytes (s.at key)
      → ks.now c.db < 2 ^ 50
      → exp < 2 ^ 32
      → lies_ahead (ks.now c.db) exp ≡ true
      → suc s.counter < 10 ^ 14
      → c'.out ≡ c.out
      → c'.db ≡ (eval_lua r Script.gat (gat_args key exp) c.db).1
      → Touches ks
          (ks.now c.db)
          c.out
          (block_of with_cas key ((touch_item (ks.now c.db) key exp s).1.at key))
          (touch_item (ks.now c.db) key exp s).1
          (retrieval_reply with_cas key (eval_lua r Script.gat (gat_args key exp) c.db).0 c')
  one_key_Touches with_cas key exp s c c' agrees bytes early he ahead small out db =
      let v = touch_item (ks.now c.db) key exp s in
      let item = refreshed (suc s.counter) (s.at key) in
      let (reply, left) =
        served ks l executes Script.gat (gat_args key exp)
          (lua_gat l (make_redis_key key) cas_counter_key (to_string exp)) c.db
          (λ _. got (suc s.counter) (s.at key)) v.0 v.1 (gat_script key exp)
          (lua_gat-Implements ks l exact c.db s agrees early small key exp he ahead) in
      let (br, (out', db')) =
        shown with_cas key item (eval_lua r Script.gat (gat_args key exp) c.db).0 c'
          (refreshed-HoldsBytes (suc s.counter) (s.at key) bytes)
          (subst (λ o. Replied r o (eval_lua r Script.gat (gat_args key exp) c.db).0)
            (got-found (suc s.counter) (s.at key)) reply) in
      let same = block_of-touch_found (ks.now c.db) exp key s with_cas (s.at key) refl in
      (
        (
          br,
          (
            out' ∙ ap (λ o. o ++ block_of with_cas key item) out ∙ ap (λ b. c.out ++ b) (sym same),
            subst (λ d. Agrees (ks.entry d) v.1) (sym (db' ∙ db)) left,
          ),
        ),
        ap ks.now (db' ∙ db)
            ∙ eval_lua-stands_still Script.gat (gat_args key exp) _ c.db (gat_script key exp),
      )

  -- the same with a name for the time
  one_key_at :
      (with_cas : Bool) (key : Bytes) (exp now : ℕ) (s : Items) (c c' : Conn r)
      → Agrees (ks.entry c.db) s
      → HoldsBytes (s.at key)
      → ks.now c.db ≡ now
      → now < 2 ^ 50
      → exp < 2 ^ 32
      → lies_ahead now exp ≡ true
      → suc s.counter < 10 ^ 14
      → c'.out ≡ c.out
      → c'.db ≡ (eval_lua r Script.gat (gat_args key exp) c.db).1
      → Touches ks now c.out
          (block_of with_cas key ((touch_item now key exp s).1.at key))
          (touch_item now key exp s).1
          (retrieval_reply with_cas key (eval_lua r Script.gat (gat_args key exp) c.db).0 c')
  one_key_at with_cas key exp now s c c' agrees bytes at early he ahead small out db =
      subst
        (λ n.
          n < 2 ^ 50
          → lies_ahead n exp ≡ true
          → Touches ks n c.out (block_of with_cas key ((touch_item n key exp s).1.at key))
              (touch_item n key exp s).1
              (retrieval_reply with_cas key (eval_lua r Script.gat (gat_args key exp) c.db).0 c'))
        at
        (λ early' ahead'.
          one_key_Touches with_cas key exp s c c' agrees bytes early' he ahead' small out db)
        early ahead

  then_next :
      (now : ℕ) (before block text : Bytes) (s s' : Items) (h : Handled r)
      (next : Conn r → Handled r)
      → Touches ks now before block s h
      → ((c : Conn r)
          → Agrees (ks.entry c.db) s
          → ks.now c.db ≡ now
          → Retrieves ks c.out text s' (next c))
      → Retrieves ks before (block ++ text) s' (next_key h next)
  unfolding next_key
  then_next now before block text s s' (Br.done, c) next ((br, (out, agrees)), at) all =
      let (br', (out', agrees')) = all c agrees at in
      (br', (out' ∙ ap (λ o. o ++ text) out ∙ append_assoc before block text, agrees'))
  then_next now before block text s s' (Br.failed e, c) next ((br, (out, agrees)), at) all =
      absurd (cc)

  every_key :
      (cmd : RetrievalOp)
      → is_gat cmd ≡ true
      → (exp now : ℕ) → now < 2 ^ 50
      → exp < 2 ^ 32
      → lies_ahead now exp ≡ true
      → (keys : List Bytes) (s : Items) (c : Conn r) → Agrees (ks.entry c.db) s
      → ((k : Bytes) → HoldsBytes (s.at k))
      → ks.now c.db ≡ now
      → s.counter + length keys < 10 ^ 14
      → Retrieves ks c.out
          (touched_answer (include_cas cmd) now exp keys s)
          (touched_all now exp keys s)
          (ascii_retrieval cmd (some exp) keys c)
  unfolding ascii_retrieval tell retrieve_one
  every_key cmd e exp now early he ahead [] s c agrees bytes at small = (refl, (refl, agrees))
  every_key cmd e exp now early he ahead (key ∷ keys) s c agrees bytes at small =
      let s' = (touch_item now key exp s).1 in
      then_next now c.out (block_of (include_cas cmd) key (s'.at key))
        (touched_answer (include_cas cmd) now exp keys s') s' (touched_all now exp keys s')
        (retrieve_one cmd (some exp) key c) (ascii_retrieval cmd (some exp) keys)
        (rw e (
          one_key_at (include_cas cmd) key exp now s c _ agrees (bytes key) at early he ahead
            (omega arith) refl refl))
        (λ c' agrees' at'.
          every_key cmd e exp now early he ahead keys s' c' agrees'
            (touch_found-HoldsBytes now exp key s (s.at key) (bytes key) bytes) at'
            (omega (arith, touch_found-counter now exp key s (s.at key))))

  -- Where the database agrees with a map of items whose values are bytes, `gat` and `gats` of any keys,
  -- with an expiry below 2^32 that lies ahead (0, up to 30 days from now, or a time to come), succeed
  -- and append, in the order of the keys, the block
  -- of every item that is there, `VALUE <key> <flags> <bytes>\r\n<value>\r\n` with the length of the
  -- value in bytes, and for `gats` with ` <cas>`, its new CAS value, behind the length, and then
  -- `END\r\n`. The database then agrees with the items that `touch_item` leaves, key after key. Redis
  -- runs the scripts, cached or not, as `Executes` says. The time is below 2^50 and stands still from
  -- key to key, and the CAS counter and the number of keys together are below 10^14.
  pub ascii_retrieval-Touches :
      (with_cas : Bool) (exp : ℕ) (keys : List Bytes) (s : Items) (c : Conn r)
      → Agrees (ks.entry c.db) s
      → ((k : Bytes) → HoldsBytes (s.at k))
      → ks.now c.db < 2 ^ 50
      → exp < 2 ^ 32
      → lies_ahead (ks.now c.db) exp ≡ true
      → s.counter + length keys < 10 ^ 14
      → Retrieves ks c.out
          (touched_answer with_cas (ks.now c.db) exp keys s)
          (touched_all (ks.now c.db) exp keys s)
          (ascii_retrieval (if with_cas then gats else gat) (some exp) keys c)
  unfolding is_gat include_cas
  ascii_retrieval-Touches true exp keys s c agrees bytes early he ahead small =
      every_key gats refl exp (ks.now c.db) early he ahead keys s c agrees bytes refl small
  ascii_retrieval-Touches false exp keys s c agrees bytes early he ahead small =
      every_key gat refl exp (ks.now c.db) early he ahead keys s c agrees bytes refl small
