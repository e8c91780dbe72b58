-- ===== src/Lua/Scripts.antt =====
-- The scripts LUA_STORE, LUA_GET, LUA_DELETE, LUA_COUNTER, LUA_TOUCH, LUA_GAT, LUA_APPEND and
-- LUA_PREPEND of src/lib.rs. An argument `key` is KEYS[1], `cas_key` is KEYS[2], and the others are
-- ARGV in their order.
pub mod Blocks
pub mod Agrees
pub mod Change
pub mod Store
pub mod Read
pub mod Remove
pub mod Revise
pub mod Count
pub mod Concat
use red_couch.Base.{
  ℕ, zero, suc, Bool, true, false, not, ◌&&◌, Option, none, some, List, [], ◌∷◌, ◌++◌, Bytes, codes,
  bytes_eq, if◌then◌else◌, ℤ, pos, negsuc, minus,
}
use red_couch.Hex.{hex_encode}
use red_couch.Lua.Keyspace.{
  KeyCommand, exists, persist, del, incr, hget, hset, expire, expire_at, Answer, nil, int, bulk,
  unread, raised,
}
use red_couch.Lua.Number.{LuaNumber, of_nat}
use red_couch.Lua.Program.{Cell, number, text, Outcome, whole, row, Program, give, call}

-- `redis.call('EXISTS', key) == 1`
unfoldable pub is_one : Answer → Bool
is_one (int (pos (suc zero))) = true
is_one _ = false

-- `stored_cas ~= req_cas`
unfoldable pub differs : Answer → Bytes → Bool
differs (bulk s) t = not (bytes_eq s t)
differs _ t = true

-- `if v == false then v = default end`
unfoldable pub or_default : Answer → Bytes → Bytes
or_default (bulk s) t = s
or_default _ t = t

-- `{status, '', ...}`, with `n` empty texts
abbrev pub refusal : ℕ → ℕ → Outcome
refusal status n = row (number (minus status) ∷ empty_texts n)
  where
    empty_texts : ℕ → List Cell
    empty_texts zero = []
    empty_texts (suc k) = text [] ∷ empty_texts k

-- `if req_cas ~= '0' then` compare `stored_cas` `end`; `mismatch` is the return on a difference
unfoldable pub cas_block : Bytes → Bytes → Outcome → Program → Program
unfolding differs
cas_block key req_cas mismatch next =
    if bytes_eq req_cas (codes "0")
    then next
    else call key (hget (codes "c"))
        (λ stored_cas. if differs stored_cas req_cas then give mismatch else next)

-- the fields of a new item
abbrev pub item_fields : Bytes → Bytes → Bytes → List (Bytes × Bytes)
item_fields v f c = (codes "v", v) ∷ (codes "f", f) ∷ (codes "c", c) ∷ []

unfoldable pub lua_get : Bytes → Program
unfolding is_one or_default hex_encode
lua_get key = call key exists (λ e.
    if not (is_one e)
    then give (refusal 1 3)
    else call key (hget (codes "v")) (λ v. call key (hget (codes "f")) (λ f.
      call key (hget (codes "c")) (λ c. give (
        row (
          number (pos 0)
          ∷ text (hex_encode (or_default v []))
          ∷ text (or_default f (codes "0"))
          ∷ text (or_default c (codes "0"))
          ∷ []))))))

unfoldable pub lua_delete : Bytes → Bytes → Program
unfolding is_one cas_block
lua_delete key req_cas = call key exists (λ e.
    if not (is_one e)
    then give (whole (minus 1))
    else cas_block key req_cas (whole (minus 2)) (call key del (λ _. give (whole (pos 0)))))

module _ (l : LuaNumber) where
  -- `tostring(redis.call('INCR', ...))`
  unfoldable pub int_text : Answer → Bytes
  int_text (int n) = l.tostring (l.of_int n)
  int_text _ = []

  -- `redis.call('INCR', KEYS[2])`, with the text of its reply
  unfoldable pub new_cas_block : Bytes → (Bytes → Program) → Program
  unfolding int_text
  new_cas_block cas_key next = call cas_key incr (λ a. next (int_text a))

  -- `if exp <= 2592000 then EXPIRE else EXPIREAT`
  unfoldable pub set_expiry : Bytes → l.Num → Program → Program
  set_expiry key exp next =
      if l.le exp (of_nat l 2592000)
      then call key (expire (l.as_seconds exp)) (λ _. next)
      else call key (expire_at (l.as_seconds exp)) (λ _. next)

  -- `if exp ~= nil and exp > 0 then ... elseif exp == 0 and persists then PERSIST end`
  unfoldable pub expiry_block : Bool → Bytes → Bytes → Program → Program
  unfolding set_expiry
  expiry_block persists key expiry next = elim (l.tonumber expiry) [
    | none ↦ next
    | some exp ↦
        if l.lt (of_nat l 0) exp
        then set_expiry key exp next
        else if l.num_eq exp (of_nat l 0) && persists
        then call key persist (λ _. next)
        else next
  ]

  unfoldable pub lua_store : Bytes → Bytes → Bytes → Bytes → Bytes → Bytes → Bytes → Program
  unfolding is_one cas_block new_cas_block expiry_block
  lua_store key cas_key op value flags req_cas expiry = call key exists (λ e.
      if bytes_eq op (codes "add") && is_one e
      then give (refusal 2 1)
      else if bytes_eq op (codes "replace") && not (is_one e)
      then give (refusal 1 1)
      else if not (bytes_eq req_cas (codes "0")) && not (is_one e)
      then give (refusal 1 1)
      else cas_block key req_cas (refusal 2 1) (
          new_cas_block cas_key (λ new_cas. call key (hset (item_fields value flags new_cas)) (λ _.
            expiry_block (is_one e) key expiry (give (row (number (pos 0) ∷ text new_cas ∷ [])))))))

  -- the new value of a counter
  unfoldable pub counted : l.Num → l.Num → Bool → l.Num
  counted num delta is_decrement =
      let changed =
        if is_decrement
        then (if l.lt num delta then of_nat l 0 else l.sub num delta)
        else l.add num delta in
      if l.lt changed (of_nat l 0) then of_nat l 0 else changed

  -- the branch that makes a counter
  unfoldable pub new_counter : Bytes → Bytes → Bytes → Bytes → Program
  unfolding new_cas_block expiry_block
  new_counter key cas_key initial expiry = new_cas_block cas_key (λ new_cas.
      call key (hset (item_fields initial (codes "0") new_cas)) (λ _.
        expiry_block false key expiry
          (give (row (number (pos 0) ∷ text initial ∷ text new_cas ∷ [])))))

  -- `exp == 4294967295`
  unfoldable pub is_never : Option l.Num → Bool
  is_never none = false
  is_never (some exp) = l.num_eq exp (of_nat l 4294967295)

  -- the branch that changes a counter; an error ends the script where `delta` is no number
  unfoldable pub change_counter : Bytes → Bytes → Option l.Num → Option l.Num → Bool → Program
  unfolding counted new_cas_block
  change_counter key cas_key none delta is_decrement = give (refusal 3 2)
  change_counter key cas_key (some num) none is_decrement =
      give (Outcome.failed (codes "attempt to perform arithmetic on local 'delta' (a nil value)"))
  change_counter key cas_key (some num) (some delta) is_decrement =
      let str_val = l.format_whole (counted num delta is_decrement) in
      new_cas_block cas_key (λ new_cas.
        call key (hset ((codes "v", str_val) ∷ (codes "c", new_cas) ∷ []))
          (λ _. give (row (number (pos 0) ∷ text str_val ∷ text new_cas ∷ []))))

  -- `tonumber(redis.call('HGET', ...))`
  unfoldable pub answer_number : Answer → Option l.Num
  answer_number (bulk s) = l.tonumber s
  answer_number _ = none

  unfoldable pub lua_counter : Bytes → Bytes → Bytes → Bytes → Bytes → Bytes → Program
  unfolding is_one new_counter is_never change_counter answer_number
  lua_counter key cas_key delta is_decrement initial expiry = call key exists (λ e.
      if not (is_one e)
      then (if is_never (l.tonumber expiry)
          then give (refusal 1 2)
          else new_counter key cas_key initial expiry)
      else call key (hget (codes "v")) (λ val.
        change_counter key cas_key (answer_number val) (l.tonumber delta)
          (bytes_eq is_decrement (codes "1"))))

  unfoldable pub lua_touch : Bytes → Bytes → Bytes → Program
  unfolding is_one new_cas_block expiry_block
  lua_touch key cas_key expiry = call key exists (λ e.
      if not (is_one e)
      then give (refusal 1 1)
      else expiry_block true key expiry (
          new_cas_block cas_key (λ new_cas.
            call key (hset ((codes "c", new_cas) ∷ []))
              (λ _. give (row (number (pos 0) ∷ text new_cas ∷ []))))))

  unfoldable pub lua_gat : Bytes → Bytes → Bytes → Program
  unfolding is_one new_cas_block expiry_block or_default hex_encode
  lua_gat key cas_key expiry = call key exists (λ e.
      if not (is_one e)
      then give (refusal 1 3)
      else expiry_block true key expiry (
          new_cas_block cas_key (λ new_cas. call key (hset ((codes "c", new_cas) ∷ [])) (λ _.
            call key (hget (codes "v")) (λ v. call key (hget (codes "f")) (λ f. give (
              row (
                number (pos 0)
                ∷ text (hex_encode (or_default v []))
                ∷ text (or_default f (codes "0"))
                ∷ text new_cas
                ∷ []))))))))

  -- LUA_APPEND and LUA_PREPEND, which differ in the order of the parts
  unfoldable pub lua_concat : Bool → Bytes → Bytes → Bytes → Bytes → Program
  unfolding is_one cas_block new_cas_block or_default
  lua_concat prepends key cas_key part req_cas = call key exists (λ e.
      if not (is_one e)
      then give (refusal 5 1)
      else cas_block key req_cas (refusal 2 1) (
          call key (hget (codes "v")) (λ old.
            let old_v = or_default old [] in
            let new_v = if prepends then part ++ old_v else old_v ++ part in
            new_cas_block cas_key (λ new_cas.
              call key (hset ((codes "v", new_v) ∷ (codes "c", new_cas) ∷ []))
                (λ _. give (row (number (pos 0) ∷ text new_cas ∷ [])))))))
