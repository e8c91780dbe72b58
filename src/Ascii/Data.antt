-- ===== src/Ascii/Data.antt =====
-- `read_data_block` and `drain_data_block` of src/ascii.rs, over the outcomes of the socket's reads.
pub mod Delivery
use red_couch.Base.{
  ℕ, ◌+◌, Bool, true, false, ◌&&◌, List, [], ◌∷◌, ◌++◌, Bytes, length, take, drop, slice, get_or,
  ltb, ◌==◌, if◌then◌else◌,
}
use red_couch.Server.Handler.{Br, io_error}
use red_couch.Server.Session.{Read, received, closed, timeout, broken}

-- The loop that reads until the buffer is long enough: it is, with the reads that are left; a read
-- returns 0 or an error; or it waits in a read.
pub data Fill : Type 0 where
  filled : (buf : Bytes) → (reads : List Read) → Fill
  at_end : (buf : Bytes) → (reads : List Read) → Fill
  failed : (buf : Bytes) → (reads : List Read) → Fill
  waiting : (buf : Bytes) → Fill

-- The loop's body, behind its test.
unfoldable pub fill : List Read → ℕ → Bytes → Fill
fill [] need buf = if ltb (length buf) need then waiting buf else filled buf []
fill (received bytes ∷ reads) need buf =
    let more = fill reads need (buf ++ bytes) in
    if ltb (length buf) need then more else filled buf (received bytes ∷ reads)
fill (closed ∷ reads) need buf =
    if ltb (length buf) need then at_end buf reads else filled buf (closed ∷ reads)
fill (timeout ∷ reads) need buf =
    if ltb (length buf) need then failed buf reads else filled buf (timeout ∷ reads)
fill (broken ∷ reads) need buf =
    if ltb (length buf) need then failed buf reads else filled buf (broken ∷ reads)

-- `Ok(data)` or `Err(())`, with what is left in the buffer
pub data Block : Type 0 where
  block : (data_bytes : Bytes) → (buf : Bytes) → (reads : List Read) → Block
  no_block : (buf : Bytes) → (reads : List Read) → Block
  waiting : (buf : Bytes) → Block

-- the check of the terminator
unfoldable pub take_block : ℕ → Fill → Block
take_block byte_count (waiting buf) = waiting buf
take_block byte_count (at_end buf reads) = no_block buf reads
take_block byte_count (failed buf reads) = no_block buf reads
take_block byte_count (filled buf reads) =
    let trail = slice byte_count (byte_count + 2) buf in
    let first = get_or trail 0 0 in
    if first == b'\r' && get_or trail 1 0 == b'\n'
    then block (take byte_count buf) (drop (byte_count + 2) buf) reads
    else if first == b'\n'
    then block (take byte_count buf) (drop (byte_count + 1) buf) reads
    else no_block (drop (byte_count + 2) buf) reads

unfoldable pub read_data_block : List Read → Bytes → ℕ → Block
unfolding fill take_block
read_data_block reads buf byte_count = take_block byte_count (fill reads (byte_count + 2) buf)

-- the result of `drain_data_block`, with what is left in the buffer
pub data Drain : Type 0 where
  drained : Br → (buf : Bytes) → (reads : List Read) → Drain
  waiting : (buf : Bytes) → Drain

unfoldable pub drop_block : ℕ → Fill → Drain
drop_block byte_count (waiting buf) = waiting buf
drop_block byte_count (at_end buf reads) = drained Br.done buf reads
drop_block byte_count (failed buf reads) = drained (Br.failed io_error) buf reads
drop_block byte_count (filled buf reads) = drained Br.done (drop (byte_count + 2) buf) reads

unfoldable pub drain_data_block : List Read → Bytes → ℕ → Drain
unfolding fill drop_block
drain_data_block reads buf byte_count = drop_block byte_count (fill reads (byte_count + 2) buf)
