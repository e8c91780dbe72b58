-- ===== src/Ascii/Session/Ends.antt =====
-- Every turn of the text connection takes bytes from the buffer or a read, so the loop ends.
use red_couch.Base.{ℕ, zero, suc, ◌≤◌, ◌<◌, ◌≡◌, refl, ◌∙◌, Option, some, List, Bytes, arith}
use red_couch.Ascii.Session.{
  Step, ended, again, blocked, panicked, step, loop, measure, handle_ascii_conn,
}
use red_couch.Redis.{Redis}
use red_couch.Server.Ops.Stat.{Process}
use red_couch.Server.Session.{Read, Session}
use red_couch.Ascii.Session.Turns.{Shrinks, step-Shrinks}

-- the loop has returned, or waits in a read
abbrev pub Returns : {r : Redis} → Step r → Type 0
Returns (ended br s) = Unit {0}
Returns (blocked buf s) = Unit {0}
Returns _ = ⊥

module _ {r : Redis} (p : Process) where
  -- what follows a turn
  goes_on : ℕ → Step r → Option (Step r)
  goes_on fuel (ended br s) = some (ended br s)
  goes_on fuel (blocked buf s) = some (blocked buf s)
  goes_on fuel panicked = some panicked
  goes_on fuel (again reads buf s) = loop p fuel reads buf s

  loop-goes_on :
      (fuel : ℕ) (reads : List Read) (buf : Bytes) (s : Session r)
      → loop p (suc fuel) reads buf s ≡ goes_on fuel (step p reads buf s)
  unfolding loop goes_on
  loop-goes_on fuel reads buf s = by_step (step p reads buf s)
    where
      by_step :
          (x : Step r)
          → (elim x as (λ _. Option (Step r)) [
            | ended br s' ↦ some (ended br s')
            | blocked buf' s' ↦ some (blocked buf' s')
            | panicked ↦ some panicked
            | again reads' buf' s' ↦ loop p fuel reads' buf' s'
          ])
            ≡ goes_on fuel x
      by_step (ended br s') = refl
      by_step (blocked buf' s') = refl
      by_step panicked = refl
      by_step (again reads' buf' s') = refl

  ends_within :
      (fuel m : ℕ) (x : Step r)
      → m ≤ fuel
      → Shrinks m x
      → ((reads : List Read) (buf : Bytes) (s : Session r)
          → measure reads buf < fuel
          → (result : Step r) × (Returns result × (loop p fuel reads buf s ≡ some result)))
      → (result : Step r) × (Returns result × (goes_on fuel x ≡ some result))
  unfolding goes_on
  ends_within fuel m (ended br s) h k all = (ended br s, (tt, refl))
  ends_within fuel m (blocked buf s) h k all = (blocked buf s, (tt, refl))
  ends_within fuel m panicked h k all = absurd k
  ends_within fuel m (again reads buf s) h k all = all reads buf s (omega arith)

  -- fuel above the measure is enough
  loop-ends :
      (fuel : ℕ) (reads : List Read) (buf : Bytes) (s : Session r)
      → measure reads buf < fuel
      → (result : Step r) × (Returns result × (loop p fuel reads buf s ≡ some result))
  loop-ends zero reads buf s h = absurd (omega arith)
  loop-ends (suc fuel) reads buf s h =
      let (result, (returns, e)) =
        ends_within fuel (measure reads buf) (step p reads buf s) (omega arith)
          (step-Shrinks p reads buf s) (loop-ends fuel) in
      (result, (returns, loop-goes_on fuel reads buf s ∙ e))

  -- The loop of the text connection ends, for all reads and bytes that arrive: it returns or waits in a read
  -- behind the last outcome; it reaches no `unreachable!()`, and the fuel never runs out.
  pub handle_ascii_conn-ends :
      (reads : List Read) (buf : Bytes) (s : Session r)
      → (result : Step r) × (Returns result × (handle_ascii_conn p reads buf s ≡ some result))
  unfolding handle_ascii_conn
  handle_ascii_conn-ends reads buf s = loop-ends (suc (measure reads buf)) reads buf _ (omega arith)
