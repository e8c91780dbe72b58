-- ===== src/Ascii/Handlers/Stats.antt =====
-- `ascii_stats` of src/ascii.rs. The counters are those of the binary handler, with their names.
use red_couch.Base.{Option, none, some, List, [], ◌∷◌, ◌++◌, Bytes, codes}
use red_couch.Ascii.Handlers.{tell}
use red_couch.Redis.{Redis, count_items, eval_lua}
use red_couch.Server.Handler.{Conn, Handled}
use red_couch.Server.Ops.Stat.{Process, stat_lines, items_of}

-- the loop over the counters
unfoldable pub write_stat_lines : List (Bytes × Bytes) → Bytes → Bytes
write_stat_lines [] out = out
write_stat_lines ((name, value) ∷ rest) out =
    write_stat_lines rest
      (out ++ (codes "STAT " ++ (name ++ (codes " " ++ (value ++ codes "\r\n")))))

module _ {r : Redis} (p : Process) where
  unfoldable pub general_stats : Conn r → Conn r
  unfolding write_stat_lines
  general_stats c =
      let (reply, db') = eval_lua r count_items (codes "0" ∷ []) c.db in
      record c { db = db'; out = write_stat_lines (stat_lines p (items_of reply) c.stats) c.out }

  unfoldable pub ascii_stats : Option Bytes → Conn r → Handled r
  unfolding general_stats
  ascii_stats none c = tell (codes "END") (general_stats c)
  ascii_stats (some []) c = tell (codes "END") (general_stats c)
  ascii_stats (some (a ∷ args)) c = tell (codes "END") c
