-- ===== src/Protocol/Opcode.antt =====
-- `Opcode` of src/protocol.rs: the opcode bytes, the quiet variants and their loud bases.
pub mod Bytes
use red_couch.Base.{ℕ, Bool, true, false, Option, none, some, ◌==◌, if◌then◌else◌}

pub data Opcode : Type 0 where
  get set add replace delete increment : Opcode
  decrement quit flush get_q noop version : Opcode
  get_k get_kq append prepend set_q add_q : Opcode
  replace_q delete_q increment_q decrement_q quit_q flush_q : Opcode
  append_q prepend_q stat verbosity touch gat : Opcode
  gat_q sasl_list_mechs sasl_auth sasl_step : Opcode

-- the discriminants of the `repr(u8)` enum: `opcode as u8`
unfoldable pub to_byte : Opcode → ℕ
to_byte get = 0x00
to_byte set = 0x01
to_byte add = 0x02
to_byte replace = 0x03
to_byte delete = 0x04
to_byte increment = 0x05
to_byte decrement = 0x06
to_byte quit = 0x07
to_byte flush = 0x08
to_byte get_q = 0x09
to_byte noop = 0x0a
to_byte version = 0x0b
to_byte get_k = 0x0c
to_byte get_kq = 0x0d
to_byte append = 0x0e
to_byte prepend = 0x0f
to_byte set_q = 0x11
to_byte add_q = 0x12
to_byte replace_q = 0x13
to_byte delete_q = 0x14
to_byte increment_q = 0x15
to_byte decrement_q = 0x16
to_byte quit_q = 0x17
to_byte flush_q = 0x18
to_byte append_q = 0x19
to_byte prepend_q = 0x1a
to_byte stat = 0x10
to_byte verbosity = 0x1b
to_byte touch = 0x1c
to_byte gat = 0x1d
to_byte gat_q = 0x1e
to_byte sasl_list_mechs = 0x20
to_byte sasl_auth = 0x21
to_byte sasl_step = 0x22

unfoldable pub parse : ℕ → Option Opcode
parse b =
    if b == 0x00
    then some get
    else if b == 0x01
    then some set
    else if b == 0x02
    then some add
    else if b == 0x03
    then some replace
    else if b == 0x04
    then some delete
    else if b == 0x05
    then some increment
    else if b == 0x06
    then some decrement
    else if b == 0x07
    then some quit
    else if b == 0x08
    then some flush
    else if b == 0x09
    then some get_q
    else if b == 0x0a
    then some noop
    else if b == 0x0b
    then some version
    else if b == 0x0c
    then some get_k
    else if b == 0x0d
    then some get_kq
    else if b == 0x0e
    then some append
    else if b == 0x0f
    then some prepend
    else if b == 0x11
    then some set_q
    else if b == 0x12
    then some add_q
    else if b == 0x13
    then some replace_q
    else if b == 0x14
    then some delete_q
    else if b == 0x15
    then some increment_q
    else if b == 0x16
    then some decrement_q
    else if b == 0x17
    then some quit_q
    else if b == 0x18
    then some flush_q
    else if b == 0x19
    then some append_q
    else if b == 0x1a
    then some prepend_q
    else if b == 0x10
    then some stat
    else if b == 0x1b
    then some verbosity
    else if b == 0x1c
    then some touch
    else if b == 0x1d
    then some gat
    else if b == 0x1e
    then some gat_q
    else if b == 0x20
    then some sasl_list_mechs
    else if b == 0x21
    then some sasl_auth
    else if b == 0x22
    then some sasl_step
    else none

unfoldable pub is_quiet : Opcode → Bool
is_quiet get_q = true
is_quiet get_kq = true
is_quiet set_q = true
is_quiet add_q = true
is_quiet replace_q = true
is_quiet delete_q = true
is_quiet increment_q = true
is_quiet decrement_q = true
is_quiet quit_q = true
is_quiet flush_q = true
is_quiet append_q = true
is_quiet prepend_q = true
is_quiet gat_q = true
is_quiet _ = false

unfoldable pub includes_key : Opcode → Bool
includes_key get_k = true
includes_key get_kq = true
includes_key gat = true
includes_key gat_q = true
includes_key _ = false

unfoldable pub base : Opcode → Opcode
base set_q = set
base add_q = add
base replace_q = replace
base delete_q = delete
base increment_q = increment
base decrement_q = decrement
base quit_q = quit
base flush_q = flush
base get_q = get
base get_kq = get_k
base append_q = append
base prepend_q = prepend
base gat_q = gat
base other = other
