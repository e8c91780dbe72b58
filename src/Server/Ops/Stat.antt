-- ===== src/Server/Ops/Stat.antt =====
-- `op_stat` of src/lib.rs.
use red_couch.Base.{ℕ, ◌==◌, List, [], ◌∷◌, Bytes, codes, is_utf8, length, if◌then◌else◌}
use red_couch.ByteOrder.{ByteOrder}
use red_couch.Decimal.{to_string}
use red_couch.Protocol.Frame.{Request}
use red_couch.Protocol.Opcode.{Opcode}
use red_couch.Protocol.Response.{write_response}
use red_couch.Protocol.Status
use red_couch.Protocol.Wire.{cas_zero}
use red_couch.Redis.{Redis, integer, Reply, ok, count_items, eval_lua}
use red_couch.Server.Handler.{done, Conn, Handled}
use red_couch.Server.Ops.Delete.{as_u64}
use red_couch.Server.Stats.{Stats}

-- what the process and its clock tell: `std::process::id()`, the seconds since the start, and the
-- Unix time
pub record Process : Type 0 where
  pub pid : ℕ
  pub uptime : ℕ
  pub time : ℕ

abbrev pub max_connections : ℕ
max_connections = 1024

unfoldable pub stat_lines : Process → ℕ → Stats → List (Bytes × Bytes)
stat_lines p curr_items s =
    (codes "pid", to_string p.pid)
    ∷ (codes "uptime", to_string p.uptime)
    ∷ (codes "time", to_string p.time)
    ∷ (codes "version", codes "RedCouch 0.1.0")
    ∷ (codes "curr_items", to_string curr_items)
    ∷ (codes "curr_connections", to_string s.curr_connections)
    ∷ (codes "total_connections", to_string s.total_connections)
    ∷ (codes "cmd_get", to_string s.cmd_get)
    ∷ (codes "cmd_set", to_string s.cmd_set)
    ∷ (codes "cmd_flush", to_string s.cmd_flush)
    ∷ (codes "cmd_touch", to_string s.cmd_touch)
    ∷ (codes "get_hits", to_string s.get_hits)
    ∷ (codes "get_misses", to_string s.get_misses)
    ∷ (codes "delete_hits", to_string s.delete_hits)
    ∷ (codes "delete_misses", to_string s.delete_misses)
    ∷ (codes "incr_hits", to_string s.incr_hits)
    ∷ (codes "incr_misses", to_string s.incr_misses)
    ∷ (codes "decr_hits", to_string s.decr_hits)
    ∷ (codes "decr_misses", to_string s.decr_misses)
    ∷ (codes "cas_hits", to_string s.cas_hits)
    ∷ (codes "cas_misses", to_string s.cas_misses)
    ∷ (codes "cas_badval", to_string s.cas_badval)
    ∷ (codes "auth_cmds", to_string s.auth_cmds)
    ∷ (codes "auth_errors", to_string s.auth_errors)
    ∷ (codes "rejected_connections", to_string s.rejected_connections)
    ∷ (codes "max_connections", to_string max_connections)
    ∷ []

unfoldable pub items_of : Reply → ℕ
items_of (ok (integer n)) = as_u64 n
items_of _ = 0

module _ ⦃bo : ByteOrder⦄ where
  unfoldable pub write_stats : Opcode → Request → List (Bytes × Bytes) → Bytes → Bytes
  write_stats opcode req [] out = out
  write_stats opcode req ((name, value) ∷ rest) out = write_stats opcode req rest (
      write_response out opcode
        (record { status = Status.ok; opaque = req.hdr.opaque; cas = cas_zero }) [] name value)

module _ ⦃bo : ByteOrder⦄ {r : Redis} (p : Process) where
  -- a key that is no UTF-8 is taken for the empty text
  unfoldable pub op_stat : Opcode → Request → Conn r → Handled r
  unfolding stat_lines items_of write_stats
  op_stat opcode req c =
      let stat_key = if is_utf8 req.key then req.key else [] in
      let (reply, db') = eval_lua r count_items (codes "0" ∷ []) c.db in
      let listed = record c {
        db = db';
        out = write_stats opcode req (stat_lines p (items_of reply) c.stats) c.out;
      } in
      let c' = if length stat_key == 0 then listed else c in
      (
        done,
        record c' {
          out =
              write_response c'.out opcode
                (record { status = Status.ok; opaque = req.hdr.opaque; cas = cas_zero }) [] [] [];
        },
      )
