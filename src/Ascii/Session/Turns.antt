-- ===== src/Ascii/Session/Turns.antt =====
-- A turn of the text connection leaves less than there was.
use red_couch.Base.{
  ℕ, ◌+◌, ◌<◌, Bool, true, false, Option, none, some, List, [], ◌∷◌, Bytes, codes, length, take,
  drop, ltb, if◌then◌else◌, length-append, arith,
}
use red_couch.Ascii
use red_couch.Meta
use red_couch.Ascii.Command.{
  AsciiCmd, CmdParseResult, data_block_len, needs_data_block, is_noreply, is_meta_command,
}
use red_couch.Ascii.Data.{Block, block, no_block, read_data_block, Drain, drained, drain_data_block}
use red_couch.Ascii.Dispatch.{dispatch_cmd}
use red_couch.Ascii.Handlers.{tell, tell_unless}
use red_couch.Ascii.Parse.{parse_command_line}
use red_couch.Ascii.Parse.Valid.Lines.{parse_command_line-Sound}
use red_couch.Ascii.Line.{find_line_end, Found, find_line_end-Found}
use red_couch.Ascii.Session.{
  Step, ended, again, flush_and_go_on, and_then, handled, within, after_drain, meta_block,
  meta_step, command_block, command_step, line_step, max_line_len, too_large, read_step, find_step,
  step, pending, measure, is_blank,
}
use red_couch.Meta.Parse.{MetaCmd, MetaParseResult, need_data, parse_meta_command}
use red_couch.Meta.Parse.Valid.{parse_meta_command-Sound}
use red_couch.Protocol.Wire.{max_body_len}
use red_couch.Redis.{Redis}
use red_couch.Server.Handler.{Br, done, failed, Handled}
use red_couch.Server.Ops.Stat.{Process}
use red_couch.Server.Session.{Read, received, closed, timeout, broken, Session, flush_out}
use red_couch.Ascii.Session.Fits.{
  BlockFits, DrainFits, fill-Fits, take_block-Fits, drop_block-Fits, skips,
}

-- the turn does not panic, and the next one has less than this in front of it
abbrev pub Shrinks : {r : Redis} → ℕ → Step r → Type 0
Shrinks n (again reads buf s) = measure reads buf < n
Shrinks n Step.panicked = ⊥
Shrinks n _ = Unit {0}

module _ {r : Redis} (n : ℕ) where
  if_Shrinks :
      (b : Bool) (x y : Step r) → Shrinks n x → Shrinks n y → Shrinks n (if b then x else y)
  if_Shrinks true x y h k = h
  if_Shrinks false x y h k = k

  and_then-Shrinks :
      (f : Br × Session r) (next : Session r → Step r)
      → ((s : Session r) → Shrinks n (next s))
      → Shrinks n (and_then f next)
  unfolding and_then
  and_then-Shrinks (done, s) next h = h s
  and_then-Shrinks (failed e, s) next h = tt

  flush-Shrinks :
      (reads : List Read) (buf : Bytes) (s : Session r)
      → measure reads buf < n
      → Shrinks n (flush_and_go_on reads buf s)
  unfolding flush_and_go_on
  flush-Shrinks reads buf s h = and_then-Shrinks (flush_out s) (again reads buf) (λ s'. h)

  handled-Shrinks :
      (s : Session r) (h : Handled r) (reads : List Read) (buf : Bytes)
      → measure reads buf < n
      → Shrinks n (handled s h reads buf)
  unfolding handled
  handled-Shrinks s h reads buf k =
      and_then-Shrinks (within s h) (flush_and_go_on reads buf) (λ s'. flush-Shrinks reads buf s' k)

  drain-Shrinks :
      (m : ℕ) (s : Session r) (d : Drain) → m < n → DrainFits m d → Shrinks n (after_drain s d)
  unfolding after_drain
  drain-Shrinks m s (drained br buf reads) h k =
      and_then-Shrinks (br, s) (flush_and_go_on reads buf)
        (λ s'. flush-Shrinks reads buf s' (omega arith))
  drain-Shrinks m s (Drain.waiting buf) h k = tt

  meta_block-Shrinks :
      (m : ℕ) (cmd : MetaCmd) (s : Session r) (b : Block)
      → m < n
      → BlockFits m b
      → Shrinks n (meta_block cmd s b)
  unfolding meta_block
  meta_block-Shrinks m cmd s (block data_bytes buf reads) h k =
      handled-Shrinks s _ reads buf (omega arith)
  meta_block-Shrinks m cmd s (no_block buf reads) h k = handled-Shrinks s _ reads buf (omega arith)
  meta_block-Shrinks m cmd s (Block.waiting buf) h k = tt

  command_block-Shrinks :
      (p : Process) (m : ℕ) (cmd : AsciiCmd) (s : Session r) (b : Block)
      → m < n
      → BlockFits m b
      → Shrinks n (command_block p cmd s b)
  unfolding command_block
  command_block-Shrinks p m cmd s (block data_bytes buf reads) h k =
      handled-Shrinks s _ reads buf (omega arith)
  command_block-Shrinks p m cmd s (no_block buf reads) h k =
      handled-Shrinks s _ reads buf (omega arith)
  command_block-Shrinks p m cmd s (Block.waiting buf) h k = tt

  meta_step-Shrinks :
      (result : MetaParseResult) (reads : List Read) (buf : Bytes) (s : Session r)
      → Meta.Parse.Valid.Sound result
      → measure reads buf < n
      → Shrinks n (meta_step result reads buf s)
  unfolding meta_step read_data_block drain_data_block
  meta_step-Shrinks (MetaParseResult.ok cmd) reads buf s sound h = handled-Shrinks s _ reads buf h
  meta_step-Shrinks (need_data cmd datalen) reads buf s sound h =
      if_Shrinks (ltb max_body_len datalen)
        (after_drain (within s (tell too_large s.conn)).1 (drain_data_block reads buf datalen))
        (meta_block cmd s (read_data_block reads buf datalen))
        (drain-Shrinks (measure reads buf) _ (drain_data_block reads buf datalen) h
          (drop_block-Fits datalen _ _ (fill-Fits reads (datalen + 2) buf)))
        (meta_block-Shrinks (measure reads buf) cmd s (read_data_block reads buf datalen) h
          (take_block-Fits datalen _ _ (fill-Fits reads (datalen + 2) buf)))
  meta_step-Shrinks (MetaParseResult.client_error msg) reads buf s sound h =
      handled-Shrinks s _ reads buf h
  meta_step-Shrinks MetaParseResult.panicked reads buf s sound h = absurd sound

  command_step-Shrinks :
      (p : Process) (result : CmdParseResult) (reads : List Read) (buf : Bytes) (s : Session r)
      → Ascii.Parse.Valid.Sound result
      → measure reads buf < n
      → Shrinks n (command_step p result reads buf s)
  unfolding command_step read_data_block drain_data_block
  command_step-Shrinks p (CmdParseResult.ok cmd) reads buf s sound h =
      if_Shrinks (needs_data_block cmd)
        (if ltb max_body_len (data_block_len cmd)
          then after_drain (within s (tell_unless (is_noreply cmd) too_large s.conn)).1
              (drain_data_block reads buf (data_block_len cmd))
          else command_block p cmd s (read_data_block reads buf (data_block_len cmd)))
        (handled s (dispatch_cmd p cmd none s.conn) reads buf)
        (if_Shrinks (ltb max_body_len (data_block_len cmd))
          (after_drain (within s (tell_unless (is_noreply cmd) too_large s.conn)).1
            (drain_data_block reads buf (data_block_len cmd)))
          (command_block p cmd s (read_data_block reads buf (data_block_len cmd)))
          (drain-Shrinks (measure reads buf) _ (drain_data_block reads buf (data_block_len cmd)) h (
            drop_block-Fits (data_block_len cmd) _ _
              (fill-Fits reads (data_block_len cmd + 2) buf)))
          (command_block-Shrinks p (measure reads buf) cmd s
            (read_data_block reads buf (data_block_len cmd)) h
            (take_block-Fits (data_block_len cmd) _ _
              (fill-Fits reads (data_block_len cmd + 2) buf))))
        (handled-Shrinks s _ reads buf h)
  command_step-Shrinks p CmdParseResult.unknown_command reads buf s sound h =
      handled-Shrinks s _ reads buf h
  command_step-Shrinks p (CmdParseResult.client_error msg) reads buf s sound h =
      handled-Shrinks s _ reads buf h
  command_step-Shrinks p CmdParseResult.panicked reads buf s sound h = absurd sound

module _ {r : Redis} (p : Process) where
  line_step-Shrinks :
      (n : ℕ) (line : Bytes) (reads : List Read) (buf : Bytes) (s : Session r)
      → measure reads buf < n
      → Shrinks n (line_step p line reads buf s)
  unfolding line_step
  line_step-Shrinks n line reads buf s h =
      if_Shrinks n (is_blank line) (again reads buf s)
        (if is_meta_command line
          then meta_step (parse_meta_command line) reads buf s
          else command_step p (parse_command_line line) reads buf s)
        h
        (if_Shrinks n (is_meta_command line) (meta_step (parse_meta_command line) reads buf s)
          (command_step p (parse_command_line line) reads buf s)
          (meta_step-Shrinks n (parse_meta_command line) reads buf s (parse_meta_command-Sound line)
            h)
          (command_step-Shrinks n p (parse_command_line line) reads buf s
            (parse_command_line-Sound line) h))

  read_step-Shrinks :
      (reads : List Read) (buf : Bytes) (s : Session r)
      → Shrinks (measure reads buf) (read_step p reads buf s)
  unfolding read_step measure pending
  read_step-Shrinks [] buf s = tt
  read_step-Shrinks (received bytes ∷ reads) buf s = omega (arith, length-append buf bytes)
  read_step-Shrinks (closed ∷ reads) buf s = tt
  read_step-Shrinks (timeout ∷ reads) buf s = tt
  read_step-Shrinks (broken ∷ reads) buf s = tt

  find_step-Shrinks :
      (found : Option (ℕ × ℕ)) (reads : List Read) (buf : Bytes) (s : Session r)
      → Found buf found
      → Shrinks (measure reads buf) (find_step p found reads buf s)
  unfolding find_step
  find_step-Shrinks (some (line_end, skip)) reads buf s h =
      let less = skips reads buf line_end skip h in
      let told = tell (codes "CLIENT_ERROR line too long") s.conn in
      if_Shrinks (measure reads buf) (ltb max_line_len line_end)
        (handled s told reads (drop skip buf))
        (line_step p (take line_end buf) reads (drop skip buf) s)
        (handled-Shrinks (measure reads buf) s told reads (drop skip buf) less)
        (line_step-Shrinks (measure reads buf) (take line_end buf) reads (drop skip buf) s less)
  find_step-Shrinks none reads buf s h =
      let flushed = flush_out (within s (tell (codes "CLIENT_ERROR line too long") s.conn)).1 in
      if_Shrinks (measure reads buf) (ltb (max_line_len + 2) (length buf))
        (and_then flushed (ended done)) (read_step p reads buf s)
        (and_then-Shrinks (measure reads buf) flushed (ended done) (λ s'. tt))
        (read_step-Shrinks reads buf s)

  pub step-Shrinks :
      (reads : List Read) (buf : Bytes) (s : Session r)
      → Shrinks (measure reads buf) (step p reads buf s)
  unfolding step
  step-Shrinks reads buf s =
      find_step-Shrinks (find_line_end buf) reads buf s (find_line_end-Found buf)
