-- ===== src/Protocol/Opcode/Bytes.antt =====
-- The wire bytes of the opcodes and the grouping of the quiet variants.
use red_couch.Base.{ℕ, ◌≡◌, refl, ◌↔◌, false, some, arith}
use red_couch.Protocol.Opcode.{Opcode, get, to_byte, parse, is_quiet, includes_key, base}

-- Writing an opcode's byte and parsing it gives the opcode back.
parse-to_byte : (op : Opcode) → parse (to_byte op) ≡ some op
unfolding parse to_byte
parse-to_byte get = refl
parse-to_byte _ = refl

to_byte_of_parse : (b : ℕ) (op : Opcode) → parse b ≡ some op → to_byte op ≡ b
unfolding parse to_byte
to_byte_of_parse b op h = ground arith

-- A byte parses to an opcode exactly when it is that opcode's wire byte.
pub parse_iff : (b : ℕ) (op : Opcode) → (parse b ≡ some op) ↔ (to_byte op ≡ b)
parse_iff b op = (to_byte_of_parse b op, λ e. rw (← e) (parse-to_byte op))

-- The base of every opcode is loud, is its own base, and echoes the key as the opcode does; and
-- an opcode is loud exactly when it is its own base.
pub base_lem :
    (op : Opcode)
    → (is_quiet (base op) ≡ false)
      × (base (base op) ≡ base op)
      × (includes_key (base op) ≡ includes_key op)
      × ((is_quiet op ≡ false) ↔ (base op ≡ op))
unfolding is_quiet base includes_key
base_lem get = ground arith
base_lem _ = ground arith
