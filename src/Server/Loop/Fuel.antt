-- ===== src/Server/Loop/Fuel.antt =====
-- The inner loop: enough fuel, and a buffer that arrives in two pieces.
use red_couch.Base.{ℕ, zero, suc, ◌<◌, ◌≡◌, refl, Bytes, length, drop, length-drop, arith}
use red_couch.ByteOrder.{ByteOrder}
use red_couch.Protocol.Frame.{
  Request, ParseResult, ok, incomplete, bad_magic, malformed_frame, oversized_frame,
  try_parse_request,
}
use red_couch.Protocol.Frame.Sound.{Consumes, try_parse_request-Consumes}
use red_couch.Redis.{Redis}
use red_couch.Server.Dispatch.{handle}
use red_couch.Server.Handler.{done, failed, Conn, Handled}
use red_couch.Server.Loop.{BatchEnd, after, round, batch}
use red_couch.Server.Ops.Stat.{Process}

module _ ⦃bo : ByteOrder⦄ {r : Redis} where
  -- two continuations that agree after success
  after_same :
      (h : Handled r) (f g : Conn r → BatchEnd × Conn r)
      → ((c : Conn r) → f c ≡ g c)
      → after h f ≡ after h g
  unfolding after
  after_same (done, c) f g same = same c
  after_same (failed e, c) f g same = refl

module _ ⦃bo : ByteOrder⦄ {r : Redis} (p : Process) where
  -- Two continuations that agree on shorter buffers give the same round.
  round_same :
      (res : ParseResult (Request × ℕ)) (buf : Bytes) (f g : Bytes → Conn r → BatchEnd × Conn r)
      (c : Conn r)
      → Consumes buf res
      → ((b : Bytes) (c' : Conn r) → length b < length buf → f b c' ≡ g b c')
      → round p res buf f c ≡ round p res buf g c
  unfolding round
  round_same (ok (req, used)) buf f g c h same =
      after_same (handle p req c) (f (drop used buf)) (g (drop used buf))
        (λ c'. same (drop used buf) c' (omega (arith, h.within, h.total, length-drop used buf)))
  round_same incomplete buf f g c h same = refl
  round_same bad_magic buf f g c h same = refl
  round_same (malformed_frame o b skip) buf f g c h same =
      same (drop skip buf) _ (omega (arith, length-drop skip buf))
  round_same (oversized_frame o b) buf f g c h same = refl

  -- Any two fuels above the buffer's length give the same result.
  pub batch_fuel :
      (f g : ℕ) (buf : Bytes) (c : Conn r)
      → length buf < f
      → length buf < g
      → batch p f buf c ≡ batch p g buf c
  unfolding batch
  batch_fuel zero g buf c hf hg = absurd (omega arith)
  batch_fuel (suc f) zero buf c hf hg = absurd (omega arith)
  batch_fuel (suc f) (suc g) buf c hf hg =
      round_same (try_parse_request buf) buf (batch p f) (batch p g) c
        (try_parse_request-Consumes buf)
        (λ b c' shorter. batch_fuel f g b c' (omega arith) (omega arith))
