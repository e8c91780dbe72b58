-- ===== src/Lua/Scripts/Read.antt =====
-- LUA_GET against the lookup of an item.
use red_couch.Base.{
  ℕ, ◌≡◌, refl, sym, ap, ◌∙◌, Option, none, some, [], ◌∷◌, Bytes, bytes_eq, codes, pos,
}
use red_couch.Decimal.{to_string}
use red_couch.Hex.{hex_encode}
use red_couch.Items.{Item}
use red_couch.Lua.Keyspace.{Entry, hash, set_fields, no_fields, hget, nil, documented}
use red_couch.Lua.Program.{Outcome, row, run_view, number, text}
use red_couch.Lua.Program.Step.{there, gone, field, read}
use red_couch.Lua.Scripts.{lua_get, refusal, is_one, or_default}
use red_couch.Lua.Scripts.Agrees.{Holds}
use red_couch.Lua.Scripts.Blocks.{gives}
use red_couch.Redis.{make_redis_key}

-- how the script tells an item
abbrev pub found : Option Item → Outcome
found none = refusal 1 3
found (some it) = row (
    number (pos 0)
    ∷ text (hex_encode it.value)
    ∷ text (to_string it.flags)
    ∷ text (to_string it.cas)
    ∷ [])

zero_text : to_string 0 ≡ codes "0"
unfolding to_string
zero_text = refl

module _ (now : ℕ) (view : Bytes → Entry) (key : Bytes) where
  pub lua_get-Holds :
      (it : Option Item)
      → Holds (view (make_redis_key key)) it
      → run_view now (lua_get (make_redis_key key)) view ≡ (found it, view)
  unfolding lua_get is_one or_default
  lua_get-Holds none at = gone now (make_redis_key key) _ view at ∙ gives now view (found none)
  lua_get-Holds (some it) (fields, (at, w)) =
      there now (make_redis_key key) _ view at
      ∙ field now (make_redis_key key) _ view (codes "v") it.value at w.v
      ∙ field now (make_redis_key key) _ view (codes "f") (to_string it.flags) at w.f
      ∙ field now (make_redis_key key) _ view (codes "c") (to_string it.cas) at w.c
      ∙ gives now view (found (some it))

  -- a hash with a CAS value alone reads as an item with no value
  pub lua_get-bare :
      (n : ℕ)
      → view (make_redis_key key) ≡ hash (set_fields ((codes "c", to_string n) ∷ []) no_fields) none
      → run_view now (lua_get (make_redis_key key)) view
        ≡ (found (some (record { value = []; flags = 0; cas = n; expires = none })), view)
  unfolding lua_get is_one or_default bytes_eq documented hex_encode
  lua_get-bare n at =
      there now (make_redis_key key) _ view at
      ∙ read now (make_redis_key key) (hget (codes "v")) _ view nil at refl tt
      ∙ read now (make_redis_key key) (hget (codes "f")) _ view nil at refl tt
      ∙ field now (make_redis_key key) _ view (codes "c") (to_string n) at refl
      ∙ gives now view _
      ∙ ap (λ z. (row (number (pos 0) ∷ text [] ∷ text z ∷ text (to_string n) ∷ []), view))
          (sym zero_text)
