-- ===== src/Server/Stats.antt =====
-- The runtime counters of src/lib.rs: `AtomicU64`s, which wrap.
use red_couch.Base.{ℕ, ◌+◌, ◌%◌, ◌^◌}

pub record Stats : Type 0 where
  pub cmd_get : ℕ
  pub cmd_set : ℕ
  pub cmd_flush : ℕ
  pub cmd_touch : ℕ
  pub get_hits : ℕ
  pub get_misses : ℕ
  pub delete_hits : ℕ
  pub delete_misses : ℕ
  pub incr_hits : ℕ
  pub incr_misses : ℕ
  pub decr_hits : ℕ
  pub decr_misses : ℕ
  pub cas_hits : ℕ
  pub cas_misses : ℕ
  pub cas_badval : ℕ
  pub curr_connections : ℕ
  pub total_connections : ℕ
  pub auth_cmds : ℕ
  pub auth_errors : ℕ
  pub rejected_connections : ℕ

-- `fetch_add(1)`
abbrev pub plus_one : ℕ → ℕ
plus_one n = (n + 1) % 2 ^ 64
