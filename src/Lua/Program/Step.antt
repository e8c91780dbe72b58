-- ===== src/Lua/Program/Step.antt =====
-- How a script runs on a view of the keys, call by call.
use mathlib.Core.Path.{fun_ext}
use red_couch.Base.{
  ℕ, ◌≡◌, refl, sym, ap, ◌∙◌, true, false, Bytes, bytes_eq, bytes_eq_iff, Bool-cases, inl, inr,
  Option, some, pos,
}
use red_couch.Lua.Keyspace.{
  Entry, absent, hash, KeyCommand, exists, hget, Answer, nil, int, bulk, unread, raised, documented,
  update,
}
use red_couch.Lua.Program.{Program, call, proceed, run_view}

pub bytes_eq_refl : (a : Bytes) → bytes_eq a a ≡ true
bytes_eq_refl a = (bytes_eq_iff a a).1 refl

pub update_self : (view : Bytes → Entry) (k : Bytes) (e : Entry) → update view k e k ≡ e
update_self view k e = rw (bytes_eq_refl k)

pub update_other :
    (view : Bytes → Entry) (k k' : Bytes) (e : Entry)
    → bytes_eq k k' ≡ false
    → update view k e k' ≡ view k'
update_other view k k' e h = rw h

pub update_same :
    (view : Bytes → Entry) (k : Bytes) (e : Entry) → view k ≡ e → update view k e ≡ view
update_same view k e h = fun_ext (λ k'. elim (Bool-cases (bytes_eq k k')) [
  | inl same ↦ rw same (sym h ∙ ap view ((bytes_eq_iff k k').0 same))
  | inr other ↦ rw other
])

pub update-update :
    (view : Bytes → Entry) (k : Bytes) (e e' : Entry)
    → update (update view k e) k e' ≡ update view k e'
update-update view k e e' =
    fun_ext (λ k'. elim (Bool-cases (bytes_eq k k')) [ inl same ↦ rw same | inr other ↦ rw other ])

-- an answer that is no error
abbrev pub GoesOn : Answer → Type 0
GoesOn (raised e) = ⊥
GoesOn _ = Unit {0}

module _ (now : ℕ) (k : Bytes) (cmd : KeyCommand) (next : Answer → Program)
    (view : Bytes → Entry) where
  answered :
      (a : Answer) (e : Entry)
      → GoesOn a
      → proceed a (update view k e) (run_view now (next a) (update view k e))
        ≡ run_view now (next a) (update view k e)
  answered nil e g = refl
  answered (int n) e g = refl
  answered (bulk s) e g = refl
  answered unread e g = refl
  answered (raised m) e g = absurd g

  -- a call goes on with its answer, on the changed view
  pub write :
      {e : Entry} (a : Answer) (e' : Entry)
      → view k ≡ e
      → documented now cmd e ≡ (a, e')
      → GoesOn a
      → run_view now (call k cmd next) view ≡ run_view now (next a) (update view k e')
  unfolding run_view
  write a e' h d g =
      let told = ap (documented now cmd) h ∙ d in
      (λ i.
        proceed ((told i).0) (update view k ((told i).1))
          (run_view now (next ((told i).0)) (update view k ((told i).1))))
      ∙ answered a e' g

  -- a call that changes nothing
  pub read :
      {e : Entry} (a : Answer)
      → view k ≡ e
      → documented now cmd e ≡ (a, e)
      → GoesOn a
      → run_view now (call k cmd next) view ≡ run_view now (next a) view
  read {e} a h d g = write a e h d g ∙ ap (run_view now (next a)) (update_same view k e h)

-- the answers of the reading commands on a hash, and on no value
module _ (now : ℕ) (k : Bytes) (next : Answer → Program) (view : Bytes → Entry) where
  pub there :
      {fields : Bytes → Option Bytes} {x : Option ℕ}
      → view k ≡ hash fields x
      → run_view now (call k exists next) view ≡ run_view now (next (int (pos 1))) view
  unfolding documented
  there at = read now k exists next view (int (pos 1)) at refl tt

  pub gone :
      view k ≡ absent
      → run_view now (call k exists next) view ≡ run_view now (next (int (pos 0))) view
  unfolding documented
  gone at = read now k exists next view (int (pos 0)) at refl tt

  pub field :
      {fields : Bytes → Option Bytes} {x : Option ℕ} (f v : Bytes)
      → view k ≡ hash fields x
      → fields f ≡ some v
      → run_view now (call k (hget f) next) view ≡ run_view now (next (bulk v)) view
  unfolding documented
  field f v at h = read now k (hget f) next view (bulk v) at (rw h refl) tt
