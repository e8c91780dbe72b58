-- ===== src/Ascii/Session/Fits.antt =====
-- The readers of data blocks and the end of a line leave no more than there was.
use red_couch.Base.{
  ℕ, ◌+◌, ◌≤◌, ◌<◌, ap, inl, inr, Bool, true, false, some, List, [], ◌∷◌, ◌++◌, Bytes, length, take,
  drop, ltb, ◌==◌, ◌&&◌, if◌then◌else◌, length-append, length-drop, Bool-cases, arith, slice,
  get_or,
}
use red_couch.Ascii.Data.{
  Fill, fill, Block, block, no_block, take_block, Drain, drained, drop_block,
}
use red_couch.Ascii.Line.{Found}
use red_couch.Ascii.Session.{pending, measure}
use red_couch.Server.Session.{Read, received, closed, timeout, broken}

-- no more than this is left
abbrev pub FillFits : ℕ → Fill → Type 0
FillFits m (Fill.filled buf reads) = measure reads buf ≤ m
FillFits m (Fill.at_end buf reads) = measure reads buf ≤ m
FillFits m (Fill.failed buf reads) = measure reads buf ≤ m
FillFits m (Fill.waiting buf) = Unit {0}

abbrev pub BlockFits : ℕ → Block → Type 0
BlockFits m (block data_bytes buf reads) = measure reads buf ≤ m
BlockFits m (no_block buf reads) = measure reads buf ≤ m
BlockFits m (Block.waiting buf) = Unit {0}

abbrev pub DrainFits : ℕ → Drain → Type 0
DrainFits m (drained br buf reads) = measure reads buf ≤ m
DrainFits m (Drain.waiting buf) = Unit {0}

more_fits : (m n : ℕ) (f : Fill) → m ≤ n → FillFits m f → FillFits n f
more_fits m n (Fill.filled buf reads) h k = omega arith
more_fits m n (Fill.at_end buf reads) h k = omega arith
more_fits m n (Fill.failed buf reads) h k = omega arith
more_fits m n (Fill.waiting buf) h k = tt

pub fill-Fits :
    (reads : List Read) (need : ℕ) (buf : Bytes)
    → FillFits (measure reads buf) (fill reads need buf)
unfolding fill measure pending
fill-Fits [] need buf = elim (Bool-cases (ltb (length buf) need)) [
  | inl e ↦ rw e tt
  | inr e ↦ rw e (omega arith)
]
fill-Fits (received bytes ∷ reads) need buf = elim (Bool-cases (ltb (length buf) need)) [
  | inl e ↦ rw e (
      more_fits _ _ (fill reads need (buf ++ bytes)) (omega (arith, length-append buf bytes))
        (fill-Fits reads need (buf ++ bytes)))
  | inr e ↦ rw e (omega arith)
]
fill-Fits (closed ∷ reads) need buf = elim (Bool-cases (ltb (length buf) need)) [
  | inl e ↦ rw e (omega arith)
  | inr e ↦ rw e (omega arith)
]
fill-Fits (timeout ∷ reads) need buf = elim (Bool-cases (ltb (length buf) need)) [
  | inl e ↦ rw e (omega arith)
  | inr e ↦ rw e (omega arith)
]
fill-Fits (broken ∷ reads) need buf = elim (Bool-cases (ltb (length buf) need)) [
  | inl e ↦ rw e (omega arith)
  | inr e ↦ rw e (omega arith)
]

drop_fits :
    (n : ℕ) (reads : List Read) (buf : Bytes) → measure reads (drop n buf) ≤ measure reads buf
unfolding measure
drop_fits n reads buf = omega (arith, length-drop n buf)

if_fits :
    (m : ℕ) (b : Bool) (x y : Block)
    → BlockFits m x
    → BlockFits m y
    → BlockFits m (if b then x else y)
if_fits m true x y h k = h
if_fits m false x y h k = k

pub take_block-Fits :
    (byte_count m : ℕ) (f : Fill) → FillFits m f → BlockFits m (take_block byte_count f)
unfolding take_block
take_block-Fits byte_count m (Fill.waiting buf) h = tt
take_block-Fits byte_count m (Fill.at_end buf reads) h = h
take_block-Fits byte_count m (Fill.failed buf reads) h = h
take_block-Fits byte_count m (Fill.filled buf reads) h =
    let trail = slice byte_count (byte_count + 2) buf in
    if_fits m (get_or trail 0 0 == b'\r' && get_or trail 1 0 == b'\n')
      (block (take byte_count buf) (drop (byte_count + 2) buf) reads)
      (if get_or trail 0 0 == b'\n'
        then block (take byte_count buf) (drop (byte_count + 1) buf) reads
        else no_block (drop (byte_count + 2) buf) reads)
      (omega (arith, drop_fits (byte_count + 2) reads buf))
      (if_fits m (get_or trail 0 0 == b'\n')
        (block (take byte_count buf) (drop (byte_count + 1) buf) reads)
        (no_block (drop (byte_count + 2) buf) reads)
        (omega (arith, drop_fits (byte_count + 1) reads buf))
        (omega (arith, drop_fits (byte_count + 2) reads buf)))

pub drop_block-Fits :
    (byte_count m : ℕ) (f : Fill) → FillFits m f → DrainFits m (drop_block byte_count f)
unfolding drop_block
drop_block-Fits byte_count m (Fill.waiting buf) h = tt
drop_block-Fits byte_count m (Fill.at_end buf reads) h = h
drop_block-Fits byte_count m (Fill.failed buf reads) h = h
drop_block-Fits byte_count m (Fill.filled buf reads) h =
    omega (arith, drop_fits (byte_count + 2) reads buf)

pub skips :
    (reads : List Read) (buf : Bytes) (line_end skip : ℕ)
    → Found buf (some (line_end, skip))
    → measure reads (drop skip buf) < measure reads buf
unfolding measure
skips reads buf line_end skip (line, rest, (_, _, inl (e, k))) =
    omega (arith, length-drop skip buf, length-append line (b'\r' ∷ b'\n' ∷ rest), ap length e, k)
skips reads buf line_end skip (line, rest, (_, _, inr ((e, _), k))) =
    omega (arith, length-drop skip buf, length-append line (b'\n' ∷ rest), ap length e, k)
