-- ===== src/Server/Session.antt =====
-- The outer loop of `handle_binary_conn` of src/lib.rs. The socket is what its calls return: the
-- outcome of each read, in order, and whether each `write_all` succeeds (all do, behind the end of
-- the list); `sent` is what was written. Between two reads the code runs on its own, as one `turn`.
pub mod Lost
pub mod Bounded
pub mod Flush
use red_couch.Base.{
  ℕ, suc, ◌+◌, Bool, true, false, List, [], ◌∷◌, ◌++◌, Bytes, length, ltb, ◌==◌, if◌then◌else◌,
}
use red_couch.ByteOrder.{ByteOrder}
use red_couch.Protocol.Wire.{max_body_len, header_len}
use red_couch.Redis.{Redis}
use red_couch.Server.Handler.{BridgeErr, timed_out, io_error, Br, done, failed, Conn, Handled}
use red_couch.Server.Loop.{BatchEnd, left, refused, oversized, stopped, out_of_fuel, batch}
use red_couch.Server.Ops.Stat.{Process}

abbrev pub max_read_buf : ℕ
max_read_buf = max_body_len + header_len + 4096

-- what a read returns: some bytes, 0, `WouldBlock` or `TimedOut`, or another error
pub data Read : Type 0 where
  received : Bytes → Read
  closed timeout broken : Read

pub record Session (r : Redis) : Type 0 where
  pub conn : Conn r
  pub sent : Bytes
  pub writes : List Bool

-- where the code is when it reads: before the inner loop, on an empty buffer, or behind it
pub data Phase : Type 0 where
  top inner : Phase

pub data Turn (r : Redis) : Type 0 where
  -- the function returns
  ended : Br → Session r → Turn r
  -- it reads, and goes on in this phase with what is in the buffer and what it receives
  reading : Phase → Bytes → Session r → Turn r

module _ {r : Redis} where
  write_out : List Bool → Session r → Br × Session r
  write_out (false ∷ ws) s = (failed io_error, record s { writes = ws })
  write_out (true ∷ ws) s = (
    done,
    record s { conn = record (s.conn) { out = [] }; sent = s.sent ++ s.conn.out; writes = ws },
  )
  write_out [] s =
      (done, record s { conn = record (s.conn) { out = [] }; sent = s.sent ++ s.conn.out })

  -- `if !out.is_empty() { sock.write_all(&out)?; out.clear(); }`
  unfoldable pub flush_out : Session r → Br × Session r
  unfolding write_out
  flush_out s = if length s.conn.out == 0 then (done, s) else write_out s.writes s

  -- what follows a write: the error is passed on by `?`
  unfoldable pub then_turn : Br × Session r → (Session r → Turn r) → Turn r
  then_turn (done, s) next = next s
  then_turn (failed e, s) next = ended (failed e) s

  -- what follows the inner loop
  unfoldable pub end_batch : BatchEnd → Session r → Turn r
  unfolding flush_out then_turn
  end_batch (left rest) s = then_turn (flush_out s) (reading top rest)
  end_batch refused s = ended done s
  end_batch oversized s = then_turn (flush_out s) (ended done)
  end_batch (stopped e) s = ended (failed e) s
  end_batch out_of_fuel s = ended (failed io_error) s

module _ ⦃bo : ByteOrder⦄ {r : Redis} (p : Process) where
  -- the inner loop, with fuel above the length of the buffer, and what follows it
  unfoldable pub run_batch : Bytes → Session r → Turn r
  unfolding end_batch
  run_batch buf s =
      let (e, c) = batch p (suc (length buf)) buf s.conn in end_batch e (record s { conn = c })

  -- from one read to the next
  unfoldable pub turn : Phase → Bytes → Session r → Turn r
  unfolding run_batch
  turn top buf s =
      if ltb max_read_buf (length buf)
      then ended done s
      else if length buf == 0
      then reading inner [] s
      else run_batch buf s
  turn inner buf s = run_batch buf s

  -- the connection, over the outcomes of its reads; behind their end it waits in a read
  unfoldable pub run : List Read → Phase → Bytes → Session r → Turn r
  unfolding turn
  run [] phase buf s = turn phase buf s
  run (read ∷ reads) phase buf s = elim (turn phase buf s) [
    | ended result s' ↦ ended result s'
    | reading phase' rest s' ↦ elim read [
      | received bytes ↦ run reads phase' (rest ++ bytes) s'
      | closed ↦ ended done s'
      | timeout ↦ ended (failed timed_out) s'
      | broken ↦ ended (failed io_error) s'
    ]
  ]

  -- `handle_binary_conn`
  unfoldable pub handle_binary_conn : List Read → Bytes → Session r → Turn r
  unfolding run
  handle_binary_conn reads buf s =
      run reads top buf (record s { conn = record (s.conn) { out = [] } })
