-- ===== src/Server/Session/Bounded.antt =====
-- How much a connection holds while it waits in a read.
use red_couch.Base.{ℕ, zero, suc, ◌+◌, ◌<◌, some, List, [], ◌∷◌, ◌++◌, Bytes, length, drop, arith}
use red_couch.ByteOrder.{ByteOrder}
use red_couch.Protocol.Frame.{
  Request, ParseResult, ok, incomplete, bad_magic, malformed_frame, oversized_frame, with_header,
  try_parse_request,
}
use red_couch.Protocol.Header
use red_couch.Protocol.Header.{Header}
use red_couch.Protocol.Wire.{max_body_len, header_len}
use red_couch.Redis.{Redis}
use red_couch.Server.Dispatch.{handle}
use red_couch.Server.Handler.{Br, done, failed, timed_out, io_error, Conn, Handled}
use red_couch.Server.Loop.{
  BatchEnd, left, refused, oversized, stopped, out_of_fuel, after, round, batch,
}
use red_couch.Server.Ops.Stat.{Process}
use red_couch.Server.Session.{
  Session, Read, received, closed, timeout, broken, Phase, top, inner, Turn, ended, reading,
  then_turn, flush_out, end_batch, run_batch, turn, run, handle_binary_conn,
}

-- the largest frame that is accepted
abbrev pub max_frame : ℕ
max_frame = header_len + max_body_len

-- an incomplete frame is shorter than that
abbrev Short : Bytes → ParseResult (Request × ℕ) → Type 0
Short buf incomplete = length buf < max_frame
Short buf _ = Unit {0}

module _ ⦃bo : ByteOrder⦄ where
  with_header-Short : (hdr : Header) (buf : Bytes) → Short buf (with_header (some hdr) buf)
  unfolding with_header
  with_header-Short hdr buf = ground arith

  try_parse_request-Short : (buf : Bytes) → Short buf (try_parse_request buf)
  unfolding try_parse_request Header.parse
  try_parse_request-Short [] = omega arith
  try_parse_request-Short (b ∷ bs) =
      ground (arith, with_header-Short (Header.fields (b ∷ bs)) (b ∷ bs))

module _ ⦃bo : ByteOrder⦄ {r : Redis} where
  -- what the inner loop leaves is shorter than a frame
  abbrev LeavesShort : BatchEnd × Conn r → Type 0
  LeavesShort (left rest, c) = length rest < max_frame
  LeavesShort (refused, c) = Unit {0}
  LeavesShort (oversized, c) = Unit {0}
  LeavesShort (stopped _, c) = Unit {0}
  LeavesShort (out_of_fuel, c) = Unit {0}

  after-LeavesShort :
      (h : Handled r) (next : Conn r → BatchEnd × Conn r)
      → ((c : Conn r) → LeavesShort (next c))
      → LeavesShort (after h next)
  unfolding after
  after-LeavesShort (done, c) next k = k c
  after-LeavesShort (failed e, c) next k = tt

module _ ⦃bo : ByteOrder⦄ {r : Redis} (p : Process) where
  round-LeavesShort :
      (res : ParseResult (Request × ℕ)) (buf : Bytes) (next : Bytes → Conn r → BatchEnd × Conn r)
      (c : Conn r)
      → Short buf res
      → ((b : Bytes) (c' : Conn r) → LeavesShort (next b c'))
      → LeavesShort (round p res buf next c)
  unfolding round
  round-LeavesShort (ok (req, used)) buf next c h k =
      after-LeavesShort (handle p req c) (next (drop used buf)) (k (drop used buf))
  round-LeavesShort incomplete buf next c h k = h
  round-LeavesShort bad_magic buf next c h k = tt
  round-LeavesShort (malformed_frame o b skip) buf next c h k = k (drop skip buf) _
  round-LeavesShort (oversized_frame o b) buf next c h k = tt

  batch-LeavesShort : (fuel : ℕ) (buf : Bytes) (c : Conn r) → LeavesShort (batch p fuel buf c)
  unfolding batch
  batch-LeavesShort zero buf c = tt
  batch-LeavesShort (suc fuel) buf c =
      round-LeavesShort (try_parse_request buf) buf (batch p fuel) c (try_parse_request-Short buf)
        (batch-LeavesShort fuel)

-- what is in the buffer while the connection waits in a read
abbrev pub HoldsShort : {r : Redis} → Turn r → Type 0
HoldsShort (ended _ _) = Unit {0}
HoldsShort (reading _ rest _) = length rest < max_frame

module _ {r : Redis} where
  then_turn-HoldsShort :
      (w : Br × Session r) (next : Session r → Turn r)
      → ((s : Session r) → HoldsShort (next s))
      → HoldsShort (then_turn w next)
  unfolding then_turn
  then_turn-HoldsShort (done, s) next k = k s
  then_turn-HoldsShort (failed e, s) next k = tt

module _ ⦃bo : ByteOrder⦄ {r : Redis} (p : Process) where
  end_batch-HoldsShort :
      (e : BatchEnd) (c : Conn r) (s : Session r) → LeavesShort (e, c) → HoldsShort (end_batch e s)
  unfolding end_batch
  end_batch-HoldsShort (left rest) c s h =
      then_turn-HoldsShort (flush_out s) (reading top rest) (λ s'. h)
  end_batch-HoldsShort refused c s h = tt
  end_batch-HoldsShort oversized c s h = then_turn-HoldsShort (flush_out s) (ended done) (λ s'. tt)
  end_batch-HoldsShort (stopped e) c s h = tt
  end_batch-HoldsShort out_of_fuel c s h = tt

  run_batch-HoldsShort : (buf : Bytes) (s : Session r) → HoldsShort (run_batch p buf s)
  unfolding run_batch
  run_batch-HoldsShort buf s =
      let (e, c) = batch p (suc (length buf)) buf s.conn in
      end_batch-HoldsShort e c (record s { conn = c })
        (batch-LeavesShort p (suc (length buf)) buf s.conn)

  turn-HoldsShort : (phase : Phase) (buf : Bytes) (s : Session r) → HoldsShort (turn p phase buf s)
  unfolding turn
  turn-HoldsShort top buf s = ground (arith, run_batch-HoldsShort buf s)
  turn-HoldsShort inner buf s = run_batch-HoldsShort buf s

  run-HoldsShort :
      (reads : List Read) (phase : Phase) (buf : Bytes) (s : Session r)
      → HoldsShort (run p reads phase buf s)
  unfolding run
  run-HoldsShort [] phase buf s = turn-HoldsShort phase buf s
  run-HoldsShort (read ∷ reads) phase buf s = go read (turn p phase buf s) (run-HoldsShort reads)
    where
      go :
          (read : Read) (t : Turn r)
          → ((phase' : Phase) (b : Bytes) (s' : Session r) → HoldsShort (run p reads phase' b s'))
          → HoldsShort (elim t [
            | ended result s' ↦ ended result s'
            | reading phase' rest s' ↦ elim read [
              | received bytes ↦ run p reads phase' (rest ++ bytes) s'
              | closed ↦ ended done s'
              | timeout ↦ ended (failed timed_out) s'
              | broken ↦ ended (failed io_error) s'
            ]
          ])
      go read (ended result s') k = tt
      go (received bytes) (reading phase' rest s') k = k phase' (rest ++ bytes) s'
      go closed (reading phase' rest s') k = tt
      go timeout (reading phase' rest s') k = tt
      go broken (reading phase' rest s') k = tt

  -- Whatever a binary connection has read, the buffer that it holds while it waits for more is
  -- shorter than the largest frame.
  pub handle_binary_conn-HoldsShort :
      (reads : List Read) (buf : Bytes) (s : Session r)
      → HoldsShort (handle_binary_conn p reads buf s)
  unfolding handle_binary_conn
  handle_binary_conn-HoldsShort reads buf s = run-HoldsShort reads top buf _
