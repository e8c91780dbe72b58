-- ===== src/Ascii/Session.antt =====
-- `handle_ascii_conn` of src/ascii.rs. The socket is what its calls return, as for the binary
-- connection.
pub mod Fits
pub mod Turns
pub mod Ends
pub mod Commands
use red_couch.Base.{
  ℕ, zero, suc, ◌+◌, Bool, true, false, ◌&&◌, ◌||◌, Option, none, some, List, [], ◌∷◌, ◌++◌, Bytes,
  codes, length, take, drop, ltb, ◌==◌, if◌then◌else◌,
}
use red_couch.Ascii.Command.{
  AsciiCmd, CmdParseResult, ok, unknown_command, client_error, needs_data_block, data_block_len,
  is_noreply, is_meta_command,
}
use red_couch.Ascii.Data.{Block, block, no_block, Drain, drained, read_data_block, drain_data_block}
use red_couch.Ascii.Dispatch.{dispatch_cmd}
use red_couch.Ascii.Handlers.{tell, tell_unless}
use red_couch.Ascii.Line.{find_line_end}
use red_couch.Ascii.Parse.{parse_command_line}
use red_couch.Meta.Handlers.Dispatch.{dispatch_meta_cmd}
use red_couch.Meta.Parse.{MetaCmd, MetaParseResult, need_data, parse_meta_command}
use red_couch.Protocol.Wire.{max_body_len}
use red_couch.Redis.{Redis}
use red_couch.Server.Handler.{Br, done, failed, timed_out, io_error, Conn, Handled}
use red_couch.Server.Ops.Stat.{Process}
use red_couch.Server.Session.{Read, received, closed, timeout, broken, Session, flush_out}

abbrev pub max_line_len : ℕ
max_line_len = 2048

-- one turn of the loop
pub data Step (r : Redis) : Type 0 where
  ended : Br → Session r → Step r
  -- the next turn, with the reads that are left and the buffer
  again : List Read → Bytes → Session r → Step r
  -- it waits in a read
  blocked : Bytes → Session r → Step r
  -- an `unreachable!()` of the parsers
  panicked : Step r

-- `u8::is_ascii_whitespace` of every byte
unfoldable pub is_blank : Bytes → Bool
is_blank [] = true
is_blank (c ∷ cs) = (c == b' ' || c == b'\t' || c == b'\n' || c == 12 || c == b'\r') && is_blank cs

abbrev pub too_large : Bytes
too_large = codes "CLIENT_ERROR object too large for cache"

abbrev pub bad_chunk : Bytes
bad_chunk = codes "CLIENT_ERROR bad data chunk"

module _ {r : Redis} where
  -- what a handler does to the session
  unfoldable pub within : Session r → Handled r → Br × Session r
  within s (br, c) = (br, record s { conn = c })

  -- `?`
  unfoldable pub and_then : Br × Session r → (Session r → Step r) → Step r
  and_then (done, s) next = next s
  and_then (failed e, s) next = ended (failed e) s

  -- `flush_out(sock, &mut out)?; continue;`
  unfoldable pub flush_and_go_on : List Read → Bytes → Session r → Step r
  unfolding and_then
  flush_and_go_on reads buf s = and_then (flush_out s) (again reads buf)

  -- a handler with `?`, and then the flush
  unfoldable pub handled : Session r → Handled r → List Read → Bytes → Step r
  unfolding within and_then flush_and_go_on
  handled s h reads buf = and_then (within s h) (flush_and_go_on reads buf)

  -- `drain_data_block(...)?`, and then the flush
  unfoldable pub after_drain : Session r → Drain → Step r
  unfolding and_then flush_and_go_on
  after_drain s (drained br buf reads) = and_then (br, s) (flush_and_go_on reads buf)
  after_drain s (Drain.waiting buf) = blocked buf s

  -- the match on the data block of a meta command
  unfoldable pub meta_block : MetaCmd → Session r → Block → Step r
  unfolding handled
  meta_block cmd s (block data_bytes buf reads) =
      handled s (dispatch_meta_cmd cmd (some data_bytes) s.conn) reads buf
  meta_block cmd s (no_block buf reads) = handled s (tell bad_chunk s.conn) reads buf
  meta_block cmd s (Block.waiting buf) = blocked buf s

  unfoldable pub meta_step : MetaParseResult → List Read → Bytes → Session r → Step r
  unfolding handled within after_drain meta_block
  meta_step (MetaParseResult.ok cmd) reads buf s =
      handled s (dispatch_meta_cmd cmd none s.conn) reads buf
  meta_step (need_data cmd datalen) reads buf s =
      if ltb max_body_len datalen
      then after_drain (within s (tell too_large s.conn)).1 (drain_data_block reads buf datalen)
      else meta_block cmd s (read_data_block reads buf datalen)
  meta_step (MetaParseResult.client_error msg) reads buf s =
      handled s (tell (codes "CLIENT_ERROR " ++ msg) s.conn) reads buf
  meta_step MetaParseResult.panicked reads buf s = panicked

module _ {r : Redis} (p : Process) where
  -- the match on the data block of a command
  unfoldable pub command_block : AsciiCmd → Session r → Block → Step r
  unfolding handled
  command_block cmd s (block data_bytes buf reads) =
      handled s (dispatch_cmd p cmd (some data_bytes) s.conn) reads buf
  command_block cmd s (no_block buf reads) =
      handled s (tell_unless (is_noreply cmd) bad_chunk s.conn) reads buf
  command_block cmd s (Block.waiting buf) = blocked buf s

  unfoldable pub command_step : CmdParseResult → List Read → Bytes → Session r → Step r
  unfolding handled within after_drain command_block
  command_step (ok cmd) reads buf s =
      let byte_count = data_block_len cmd in
      if needs_data_block cmd
      then (if ltb max_body_len byte_count
          then after_drain (within s (tell_unless (is_noreply cmd) too_large s.conn)).1
              (drain_data_block reads buf byte_count)
          else command_block cmd s (read_data_block reads buf byte_count))
      else handled s (dispatch_cmd p cmd none s.conn) reads buf
  command_step unknown_command reads buf s = handled s (tell (codes "ERROR") s.conn) reads buf
  command_step (client_error msg) reads buf s =
      handled s (tell (codes "CLIENT_ERROR " ++ msg) s.conn) reads buf
  command_step CmdParseResult.panicked reads buf s = panicked

  -- a complete line, behind which the buffer goes on
  unfoldable pub line_step : Bytes → List Read → Bytes → Session r → Step r
  unfolding meta_step command_step is_blank
  line_step line reads buf s =
      if is_blank line
      then again reads buf s
      else if is_meta_command line
      then meta_step (parse_meta_command line) reads buf s
      else command_step (parse_command_line line) reads buf s

  -- no complete line: a read
  unfoldable pub read_step : List Read → Bytes → Session r → Step r
  read_step [] buf s = blocked buf s
  read_step (received bytes ∷ reads) buf s = again reads (buf ++ bytes) s
  read_step (closed ∷ reads) buf s = ended done s
  read_step (timeout ∷ reads) buf s = ended (failed timed_out) s
  read_step (broken ∷ reads) buf s = ended (failed io_error) s

  unfoldable pub find_step : Option (ℕ × ℕ) → List Read → Bytes → Session r → Step r
  unfolding line_step read_step handled within
  find_step (some (line_end, skip)) reads buf s =
      if ltb max_line_len line_end
      then handled s (tell (codes "CLIENT_ERROR line too long") s.conn) reads (drop skip buf)
      else line_step (take line_end buf) reads (drop skip buf) s
  find_step none reads buf s =
      if ltb (max_line_len + 2) (length buf)
      then and_then (flush_out (within s (tell (codes "CLIENT_ERROR line too long") s.conn)).1)
          (ended done)
      else read_step reads buf s

  -- the body of the loop
  unfoldable pub step : List Read → Bytes → Session r → Step r
  unfolding find_step
  step reads buf s = find_step (find_line_end buf) reads buf s

  -- the loop; `none` stands for fuel that ran out
  unfoldable pub loop : ℕ → List Read → Bytes → Session r → Option (Step r)
  unfolding step
  loop zero reads buf s = none
  loop (suc fuel) reads buf s = elim (step reads buf s) [
    | ended br s' ↦ some (ended br s')
    | blocked buf' s' ↦ some (blocked buf' s')
    | panicked ↦ some panicked
    | again reads' buf' s' ↦ loop fuel reads' buf' s'
  ]

-- the bytes that arrive, and one for each read
unfoldable pub pending : List Read → ℕ
pending [] = 0
pending (received bytes ∷ reads) = suc (length bytes + pending reads)
pending (_ ∷ reads) = suc (pending reads)

-- a bound on the turns
unfoldable pub measure : List Read → Bytes → ℕ
unfolding pending
measure reads buf = length buf + pending reads

module _ {r : Redis} (p : Process) where
  -- the function, with fuel for every turn
  unfoldable pub handle_ascii_conn : List Read → Bytes → Session r → Option (Step r)
  unfolding loop measure
  handle_ascii_conn reads buf s =
      loop p (suc (measure reads buf)) reads buf (record s { conn = record (s.conn) { out = [] } })
