-- ===== src/Protocol/Status.antt =====
-- The status codes of src/protocol.rs, without their prefix `ST_`.
use red_couch.Base.{ℕ}

abbrev pub ok : ℕ
ok = 0x0000

abbrev pub nf : ℕ
nf = 0x0001

abbrev pub ix : ℕ
ix = 0x0002

abbrev pub args : ℕ
args = 0x0004

abbrev pub not_stored : ℕ
not_stored = 0x0005

abbrev pub auth_error : ℕ
auth_error = 0x0020

abbrev pub auth_continue : ℕ
auth_continue = 0x0021

abbrev pub unk : ℕ
unk = 0x0081
