-- ===== src/Protocol/Wire.antt =====
-- The constants of src/protocol.rs: magic bytes and size limits.
use red_couch.Base.{ℕ, ◌*◌}

abbrev pub magic_req : ℕ
magic_req = 0x80

abbrev pub magic_res : ℕ
magic_res = 0x81

abbrev pub max_body_len : ℕ
max_body_len = 20 * 1024 * 1024

abbrev pub max_key_len : ℕ
max_key_len = 250

abbrev pub cas_zero : ℕ
cas_zero = 0

abbrev pub header_len : ℕ
header_len = 24
