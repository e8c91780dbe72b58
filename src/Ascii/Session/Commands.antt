-- ===== src/Ascii/Session/Commands.antt =====
-- What the text connection does with a complete command in its buffer.
use mathlib.Core.Path.{subst}
use red_couch.Base.{
  ℕ, ◌+◌, ◌-◌, ◌≤◌, ◌≡◌, refl, sym, ap, ◌∙◌, inl, inr, false, Option, none, some, List, [], ◌∷◌,
  ◌++◌, Bytes, length, drop, ltb, if◌then◌else◌, length-append, take-length_append,
  drop-length_append, drop-drop, Bool-cases, arith,
}
use red_couch.Ascii.Command.{AsciiCmd, ok, data_block_len, needs_data_block, is_meta_command}
use red_couch.Ascii.Data.{filled, fill, block, take_block, read_data_block}
use red_couch.Ascii.Dispatch.{dispatch_cmd}
use red_couch.Ascii.Line.{NoNewline, find_line_end-line}
use red_couch.Ascii.Parse.{parse_command_line}
use red_couch.Ascii.Session.{
  Step, again, and_then, handled, within, flush_and_go_on, command_block, command_step, line_step,
  find_step, step, is_blank, max_line_len,
}
use red_couch.Protocol.Wire.{max_body_len}
use red_couch.Redis.{Redis}
use red_couch.Server.Handler.{Br, done, failed, Conn, Handled}
use red_couch.Server.Session.Flush.{Sends, flush_out-Sends}
use red_couch.Server.Ops.Stat.{Process}
use red_couch.Server.Session.{Read, received, closed, timeout, broken, Session, flush_out}

long_enough : (need : ℕ) (buf : Bytes) → need ≤ length buf → ltb (length buf) need ≡ false
long_enough need buf h = ground arith

-- a buffer that is long enough is not filled
fill-filled :
    (reads : List Read) (need : ℕ) (buf : Bytes)
    → need ≤ length buf
    → fill reads need buf ≡ filled buf reads
unfolding fill
fill-filled [] need buf h = rw (long_enough need buf h)
fill-filled (received bytes ∷ reads) need buf h = rw (long_enough need buf h)
fill-filled (closed ∷ reads) need buf h = rw (long_enough need buf h)
fill-filled (timeout ∷ reads) need buf h = rw (long_enough need buf h)
fill-filled (broken ∷ reads) need buf h = rw (long_enough need buf h)

drop_behind :
    (xs : Bytes) (a b : ℕ) (rest : Bytes) → drop (length xs + 2) (xs ++ (a ∷ b ∷ rest)) ≡ rest
drop_behind xs a b rest =
    sym (drop-drop (length xs) 2 (xs ++ (a ∷ b ∷ rest)))
    ∙ ap (drop 2) (drop-length_append xs (a ∷ b ∷ rest))

-- a block in the buffer is taken out of it
read_data_block-block :
    (reads : List Read) (text rest : Bytes)
    → read_data_block reads (text ++ (b'\r' ∷ b'\n' ∷ rest)) (length text) ≡ block text rest reads
unfolding read_data_block take_block
read_data_block-block reads text rest =
    ap (take_block (length text)) (
      fill-filled reads (length text + 2) (text ++ (b'\r' ∷ b'\n' ∷ rest))
        (omega (arith, length-append text (b'\r' ∷ b'\n' ∷ rest))))
    ∙ rw (drop-length_append text (b'\r' ∷ b'\n' ∷ rest), two (length text))
        (rw (take-length_append text (b'\r' ∷ b'\n' ∷ rest), drop_behind text b'\r' b'\n' rest)
          refl)
  where
    two : (m : ℕ) → m + 2 - m ≡ 2
    two m = omega arith

-- what follows the line of a command, and what its handler is given of it
abbrev pub behind_line : AsciiCmd → Bytes → Bytes → Bytes
behind_line cmd text rest = if needs_data_block cmd then text ++ (b'\r' ∷ b'\n' ∷ rest) else rest

abbrev pub block_for : AsciiCmd → Bytes → Option Bytes
block_for cmd text = if needs_data_block cmd then some text else none

-- The next turn begins with these reads and this buffer, all of `out` sent.
abbrev pub Continues : {r : Redis} → Session r → Conn r → List Read → Bytes → Step r → Type 0
Continues {r} s c reads rest x =
    (s' : Session r) × (x ≡ again reads rest s')
    × (s'.sent ≡ s.sent ++ c.out)
    × (s'.conn.out ≡ [])
    × (s'.conn.db ≡ c.db)

module _ {r : Redis} (p : Process) where
  command_step-ok :
      (cmd : AsciiCmd) (text rest : Bytes) (reads : List Read) (s : Session r)
      → data_block_len cmd ≡ length text
      → length text ≤ max_body_len
      → command_step p (ok cmd) reads (behind_line cmd text rest) s
        ≡ handled s (dispatch_cmd p cmd (block_for cmd text) s.conn) reads rest
  unfolding command_step command_block
  command_step-ok cmd text rest reads s size small = elim (Bool-cases (needs_data_block cmd)) [
    | inl e ↦ rw (e, size, within_limit small, read_data_block-block reads text rest) refl
    | inr e ↦ rw e refl
  ]
    where
      within_limit : length text ≤ max_body_len → ltb max_body_len (length text) ≡ false
      within_limit h = ground arith

  -- one turn, with a whole command in the buffer
  step-handled :
      (line : Bytes) (cmd : AsciiCmd) (text rest : Bytes) (reads : List Read) (s : Session r)
      → NoNewline line
      → length line ≤ max_line_len
      → is_blank line ≡ false
      → is_meta_command line ≡ false
      → parse_command_line line ≡ ok cmd
      → data_block_len cmd ≡ length text
      → length text ≤ max_body_len
      → step p reads (line ++ (b'\r' ∷ b'\n' ∷ behind_line cmd text rest)) s
        ≡ handled s (dispatch_cmd p cmd (block_for cmd text) s.conn) reads rest
  unfolding step find_step line_step
  step-handled line cmd text rest reads s one_line short blank meta parsed size small =
      rw (find_line_end-line line (behind_line cmd text rest) one_line) (
        rw
          (
            in_limit short,
            take-length_append line (b'\r' ∷ b'\n' ∷ behind_line cmd text rest),
            drop_behind line b'\r' b'\n' (behind_line cmd text rest),
            blank,
            meta,
            parsed,
          )
          (command_step-ok cmd text rest reads s size small))
    where
      in_limit : length line ≤ max_line_len → ltb max_line_len (length line) ≡ false
      in_limit h = ground arith

  after_flush :
      (s : Session r) (c : Conn r) (reads : List Read) (rest : Bytes) (f : Br × Session r)
      → Sends (record s { conn = c }) f
      → Continues s c reads rest (and_then f (again reads rest))
  unfolding and_then
  after_flush s c reads rest (done, s') (br, (sent, (out, db))) = (s', refl, sent, out, db)
  after_flush s c reads rest (failed e, s') (br, _) = absurd (cc)

  sent_on :
      (s : Session r) (c : Conn r) (h : Handled r) (reads : List Read) (rest : Bytes)
      → h ≡ (done, c)
      → s.writes ≡ []
      → Continues s c reads rest (handled s h reads rest)
  unfolding handled within and_then flush_and_go_on
  sent_on s c h reads rest e all =
      subst (λ h'. Continues s c reads rest (handled s h' reads rest)) (sym e)
        (after_flush s c reads rest (flush_out (record s { conn = c }))
          (flush_out-Sends (record s { conn = c }) all))

  -- A valid line, of at most 2048 bytes and neither blank nor a meta command, is in the buffer with
  -- `\r\n` behind it, and where the command takes a data block, the block with `\r\n` behind it; the
  -- block has the declared length, which is within the limit. Where the command's handler succeeds on
  -- the block and every write to the socket succeeds, one turn runs it, sends all that it appended to
  -- `out`, with what was there, and goes on behind the command.
  pub step-Continues :
      (line : Bytes) (cmd : AsciiCmd) (text rest : Bytes) (reads : List Read) (s : Session r)
      (c : Conn r)
      → NoNewline line
      → length line ≤ max_line_len
      → is_blank line ≡ false
      → is_meta_command line ≡ false
      → parse_command_line line ≡ ok cmd
      → data_block_len cmd ≡ length text
      → length text ≤ max_body_len
      → dispatch_cmd p cmd (block_for cmd text) s.conn ≡ (done, c)
      → s.writes ≡ []
      → Continues s c reads rest
          (step p reads (line ++ (b'\r' ∷ b'\n' ∷ behind_line cmd text rest)) s)
  step-Continues line cmd text rest reads s c one_line short blank meta parsed size small ran all =
      subst (Continues s c reads rest)
        (sym (step-handled line cmd text rest reads s one_line short blank meta parsed size small))
        (sent_on s c (dispatch_cmd p cmd (block_for cmd text) s.conn) reads rest ran all)
