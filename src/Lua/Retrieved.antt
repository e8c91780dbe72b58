-- ===== src/Lua/Retrieved.antt =====
-- `ascii_retrieval` of src/ascii.rs together with LUA_GET, against the map of items.
use mathlib.Core.Path.{subst}
use red_couch.Base.{
  ℕ, ◌/◌, ◌%◌, ◌<◌, ◌≡◌, refl, sym, ap, ◌∙◌, Bool, true, false, if◌then◌else◌, length, Option, none,
  some, List, [], ◌∷◌, ◌++◌, Bytes, codes, bytes_eq, append-nil, append_assoc, IsAscii, IsBytes,
  arith, int_eq,
}
use red_couch.Ascii.Command.{RetrievalOp, get, gets}
use red_couch.Ascii.Handlers.{tell}
use red_couch.Ascii.Handlers.Retrieve.{
  include_cas, is_gat, value_block, write_value, retrieval_reply, retrieve_one, next_key,
  ascii_retrieval,
}
use red_couch.Decimal.{to_string, IsDigits, to_string-IsDigits}
use red_couch.Hex.{hex_encode, hex_digit}
use red_couch.Hex.RoundTrip.{hex_decode-hex_encode}
use red_couch.Items.{Items, Item, missing}
use red_couch.Lua.Executes.{Executes, Replied, script_program}
use red_couch.Lua.Keyspace.{Keyspace}
use red_couch.Lua.Number.{LuaNumber}
use red_couch.Lua.Refinement.{lua_get-found}
use red_couch.Lua.Scripts.{lua_get}
use red_couch.Lua.Scripts.Agrees.{Agrees}
use red_couch.Lua.Scripts.Read.{found}
use red_couch.Lua.Served.{served}
use red_couch.Redis.{Redis, nil, cons, array, Reply, ok, Script, eval_int, eval_lua, make_redis_key}
use red_couch.Server.Handler.{Br, Conn, Handled}

digits-IsAscii : (t : Bytes) → IsDigits t → IsAscii t
digits-IsAscii [] h = tt
digits-IsAscii (c ∷ cs) ((lo, hi), hs) = (omega arith, digits-IsAscii cs hs)

hex_digit_ascii : (n : ℕ) → n < 16 → hex_digit n < 128
unfolding hex_digit
hex_digit_ascii n h = ground arith

hex_encode-IsAscii : (v : Bytes) → IsBytes v → IsAscii (hex_encode v)
unfolding hex_encode
hex_encode-IsAscii [] h = tt
hex_encode-IsAscii (b ∷ bs) (h, hs) = (
  hex_digit_ascii (b / 16) (omega arith),
  (hex_digit_ascii (b % 16) (omega arith), hex_encode-IsAscii bs hs),
)

-- the values are bytes
abbrev pub HoldsBytes : Option Item → Type 0
HoldsBytes none = Unit {0}
HoldsBytes (some it) = IsBytes it.value

-- The block of an item, or nothing: `VALUE <key> <flags> <bytes> [<cas>]\r\n<value>\r\n`.
abbrev pub block_of : Bool → Bytes → Option Item → Bytes
block_of with_cas key none = []
block_of with_cas key (some it) =
    codes "VALUE "
    ++ (key
        ++ (codes " "
            ++ (to_string it.flags
                ++ (codes " "
                    ++ (to_string (length it.value)
                        ++ ((if with_cas then codes " " ++ to_string it.cas else [])
                            ++ (codes "\r\n" ++ (it.value ++ codes "\r\n"))))))))

-- the blocks of the items at the keys, and `END`
abbrev pub answer : Bool → Items → List Bytes → Bytes
answer with_cas s [] = codes "END\r\n"
answer with_cas s (key ∷ keys) = block_of with_cas key (s.at key) ++ answer with_cas s keys

abbrev Shows : {r : Redis} → Bytes → Bytes → r.Db → Handled r → Type 0
Shows before block db (br, c) = (br ≡ Br.done) × ((c.out ≡ before ++ block) × (c.db ≡ db))

module _ {r : Redis} where
  pub shown :
      (with_cas : Bool) (key : Bytes) (it : Option Item) (reply : Reply) (c : Conn r)
      → HoldsBytes it
      → Replied r (found it) reply
      → Shows c.out (block_of with_cas key it) c.db (retrieval_reply with_cas key reply c)
  unfolding retrieval_reply eval_int int_eq write_value value_block
  shown with_cas key none (ok (array (cons v (cons a (cons b (cons d vs)))))) c bytes (e, _) =
      rw e (refl, (sym (append-nil c.out), refl))
  shown with_cas key none (ok (array nil)) c bytes h = absurd h
  shown with_cas key none (ok (array (cons v nil))) c bytes (e, h) = absurd h
  shown with_cas key none (ok (array (cons v (cons a nil)))) c bytes (e, (_, h)) = absurd h
  shown with_cas key none (ok (array (cons v (cons a (cons b nil))))) c bytes (e, (_, (_, h))) =
      absurd h
  shown with_cas key none _ c bytes h = absurd h
  shown with_cas key (some it) (ok (array (cons v (cons a (cons b (cons d vs)))))) c bytes
        (e, (x, (y, (z, _)))) =
      rw
        (
          e,
          x (hex_encode-IsAscii it.value bytes),
          y (digits-IsAscii _ (to_string-IsDigits it.flags)),
          z (digits-IsAscii _ (to_string-IsDigits it.cas)),
          hex_decode-hex_encode it.value bytes,
        )
        (refl, (refl, refl))
  shown with_cas key (some it) (ok (array nil)) c bytes h = absurd h
  shown with_cas key (some it) (ok (array (cons v nil))) c bytes (e, h) = absurd h
  shown with_cas key (some it) (ok (array (cons v (cons a nil)))) c bytes (e, (_, h)) = absurd h
  shown with_cas key (some it) (ok (array (cons v (cons a (cons b nil))))) c bytes
        (e, (_, (_, h))) =
      absurd h
  shown with_cas key (some it) _ c bytes h = absurd h

-- A handler succeeds with this text behind what was in `out`, and leaves these items.
abbrev pub Retrieves : {r : Redis} → Keyspace r.Db → Bytes → Bytes → Items → Handled r → Type 0
Retrieves ks before text s (br, c) =
    (br ≡ Br.done) × ((c.out ≡ before ++ text) × Agrees (ks.entry c.db) s)

module _ {r : Redis} (ks : Keyspace r.Db) (l : LuaNumber) (executes : Executes r ks l) (s : Items)
    (bytes : (k : Bytes) → HoldsBytes (s.at k)) where
  get_script :
      (key : Bytes)
      → script_program l Script.get (codes "1" ∷ make_redis_key key ∷ [])
        ≡ some (lua_get (make_redis_key key))
  unfolding bytes_eq
  get_script key = refl

  one_key_Retrieves :
      (with_cas : Bool) (key : Bytes) (c c' : Conn r)
      → Agrees (ks.entry c.db) s
      → c'.out ≡ c.out
      → c'.db ≡ (eval_lua r Script.get (codes "1" ∷ make_redis_key key ∷ []) c.db).1
      → Retrieves ks c.out (block_of with_cas key (s.at key)) s (
          retrieval_reply with_cas key
            (eval_lua r Script.get (codes "1" ∷ make_redis_key key ∷ []) c.db).0
            c')
  one_key_Retrieves with_cas key c c' agrees out db =
      let got = lua_get-found ks c.db s agrees key in
      let (reply, left) =
        served ks l executes Script.get (codes "1" ∷ make_redis_key key ∷ [])
          (lua_get (make_redis_key key)) c.db (λ _. found (s.at key)) missing s (get_script key)
          (ap (λ x. x.0) got, subst (λ v. Agrees v s) (sym (ap (λ x. x.1) got)) agrees) in
      let (br, (out', db')) = shown with_cas key (s.at key) _ c' (bytes key) reply in
      (
        br,
        (
          out' ∙ ap (λ o. o ++ block_of with_cas key (s.at key)) out,
          subst (λ d. Agrees (ks.entry d) s) (sym (db' ∙ db)) left,
        ),
      )

  then_next :
      (before block text : Bytes) (h : Handled r) (next : Conn r → Handled r)
      → Retrieves ks before block s h
      → ((c : Conn r) → Agrees (ks.entry c.db) s → Retrieves ks c.out text s (next c))
      → Retrieves ks before (block ++ text) s (next_key h next)
  unfolding next_key
  then_next before block text (Br.done, c) next (br, (out, agrees)) all =
      let (br', (out', agrees')) = all c agrees in
      (br', (out' ∙ ap (λ o. o ++ text) out ∙ append_assoc before block text, agrees'))
  then_next before block text (Br.failed e, c) next (br, (out, agrees)) all = absurd (cc)

  every_key :
      (cmd : RetrievalOp)
      → is_gat cmd ≡ false
      → (exptime : Option ℕ) (keys : List Bytes) (c : Conn r) → Agrees (ks.entry c.db) s
      → Retrieves ks c.out (answer (include_cas cmd) s keys) s (ascii_retrieval cmd exptime keys c)
  unfolding ascii_retrieval tell retrieve_one
  every_key cmd e exptime [] c agrees = (refl, (refl, agrees))
  every_key cmd e exptime (key ∷ keys) c agrees =
      then_next c.out (block_of (include_cas cmd) key (s.at key)) (answer (include_cas cmd) s keys)
        (retrieve_one cmd exptime key c) (ascii_retrieval cmd exptime keys)
        (rw e (one_key_Retrieves (include_cas cmd) key c _ agrees refl refl))
        (every_key cmd e exptime keys)

  -- Where the database agrees with a map of items whose values are bytes, `get` and `gets` of any keys
  -- succeed and append, in the order of the keys, the block of every item that is there,
  -- `VALUE <key> <flags> <bytes>\r\n<value>\r\n` with the length of the value in bytes, and for `gets`
  -- with ` <cas>` behind the length, and then `END\r\n`. The database still agrees with the same
  -- items. Redis runs the scripts, cached or not, as `Executes` says.
  pub ascii_retrieval-Retrieves :
      (with_cas : Bool) (exptime : Option ℕ) (keys : List Bytes) (c : Conn r)
      → Agrees (ks.entry c.db) s
      → Retrieves ks c.out
          (answer with_cas s keys)
          s
          (ascii_retrieval (if with_cas then gets else get) exptime keys c)
  unfolding is_gat include_cas
  ascii_retrieval-Retrieves true exptime keys c agrees = every_key gets refl exptime keys c agrees
  ascii_retrieval-Retrieves false exptime keys c agrees = every_key get refl exptime keys c agrees
