-- ===== src/Server/Session/Flush.antt =====
-- The flush, where the writes succeed.
use red_couch.Base.{
  ◌≡◌, refl, sym, ap, ◌∙◌, Bool, true, List, [], ◌∷◌, ◌++◌, Bytes, length, ◌==◌, append-nil,
  Bool-cases, inl, inr, arith,
}
use red_couch.Redis.{Redis}
use red_couch.Server.Handler.{Br, done}
use red_couch.Server.Session.{Session, write_out, flush_out}

-- all that was in `out` is sent
abbrev pub Sends : {r : Redis} → Session r → Br × Session r → Type 0
Sends s (br, s') =
    (br ≡ done)
    × ((s'.sent ≡ s.sent ++ s.conn.out) × ((s'.conn.out ≡ []) × (s'.conn.db ≡ s.conn.db)))

no_bytes : (bs : Bytes) → (length bs == 0) ≡ true → bs ≡ []
no_bytes [] h = refl
no_bytes (b ∷ bs) h = absurd (ground arith)

module _ {r : Redis} where
  write_out-Sends :
      (writes : List Bool) (s : Session r) → writes ≡ [] → Sends s (write_out writes s)
  unfolding write_out
  write_out-Sends [] s h = (refl, (refl, (refl, refl)))
  write_out-Sends (w ∷ ws) s h = absurd (cc)

  pub flush_out-Sends : (s : Session r) → s.writes ≡ [] → Sends s (flush_out s)
  unfolding flush_out
  flush_out-Sends s h = elim (Bool-cases (length s.conn.out == 0)) [
    | inl e ↦ rw e (
      refl,
      (
        sym (ap (λ o. s.sent ++ o) (no_bytes s.conn.out e) ∙ append-nil s.sent),
        (no_bytes s.conn.out e, refl),
      ),
    )
    | inr e ↦ rw e (write_out-Sends s.writes s h)
  ]
