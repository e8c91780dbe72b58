-- ===== src/Server/Detect.antt =====
-- `handle_conn` of src/lib.rs: the detection of a connection's protocol by its first byte.
pub mod Pieces
use red_couch.Base.{
  ℕ, Bool, true, false, ◌&&◌, ◌||◌, List, [], ◌∷◌, ◌++◌, Bytes, leb, ◌==◌, if◌then◌else◌,
}
use red_couch.Protocol.Wire.{magic_req}
use red_couch.Server.Handler.{Br, done, failed, timed_out, io_error}
use red_couch.Server.Session.{Read, received, closed, timeout, broken}

pub data Detected : Type 0 where
  -- `handle_binary_conn` or `handle_ascii_conn` goes on with this buffer and these reads
  binary text : (buf : Bytes) → (reads : List Read) → Detected
  -- the function returns
  ended : Br → Detected
  -- it waits in a read
  waiting : Detected

-- `b'\r'` or `b'\n'`
abbrev pub is_line_end : ℕ → Bool
is_line_end c = c == b'\r' || c == b'\n'

-- the inner loop
unfoldable pub skip_line_ends : Bytes → Bytes
skip_line_ends [] = []
skip_line_ends (c ∷ cs) = let rest = skip_line_ends cs in if is_line_end c then rest else c ∷ cs

-- the branches on the first byte
unfoldable pub by_first : ℕ → Bytes → List Read → Detected
by_first first buf reads =
    if first == magic_req
    then binary buf reads
    else if (leb 0x21 first && leb first 0x7E) || first == b' '
    then text buf reads
    else ended done

-- the loop; it reads only when its buffer is empty
unfoldable pub detect : List Read → Bytes → Detected
unfolding skip_line_ends by_first
detect [] buf = elim (skip_line_ends buf) [ [] ↦ waiting | c ∷ cs ↦ by_first c (c ∷ cs) [] ]
detect (read ∷ reads) buf = elim (skip_line_ends buf) [
  | c ∷ cs ↦ by_first c (c ∷ cs) (read ∷ reads)
  | [] ↦ elim read [
    | received bytes ↦ detect reads bytes
    | closed ↦ ended done
    | timeout ↦ ended (failed timed_out)
    | broken ↦ ended (failed io_error)
  ]
]

-- `handle_conn`, up to the handler of the protocol
unfoldable pub handle_conn : List Read → Detected
unfolding detect
handle_conn reads = detect reads []
