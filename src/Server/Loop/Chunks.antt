-- ===== src/Server/Loop/Chunks.antt =====
-- The inner loop never runs out of fuel, and does not depend on how the stream is cut into reads.
use red_couch.Base.{
  ℕ, zero, suc, ◌<◌, ◌≡◌, ◌≢◌, refl, ◌++◌, Bytes, length, drop, length-drop, length-append,
  drop-append_le, inl, inr, arith,
}
use red_couch.ByteOrder.{ByteOrder}
use red_couch.Protocol.Frame.{
  Request, ParseResult, ok, incomplete, bad_magic, malformed_frame, oversized_frame,
  incomplete-cases, try_parse_request,
}
use red_couch.Protocol.Frame.Sound.{Consumes, try_parse_request-Consumes}
use red_couch.Protocol.Frame.Stable.{try_parse_request-append}
use red_couch.Redis.{Redis}
use red_couch.Server.Dispatch.{handle}
use red_couch.Server.Handler.{done, failed, Conn, Handled}
use red_couch.Server.Loop.Fuel.{batch_fuel}
use red_couch.Server.Loop.{
  BatchEnd, left, refused, oversized, stopped, out_of_fuel, after, round, batch,
}
use red_couch.Server.Ops.Stat.{Process}

module _ ⦃bo : ByteOrder⦄ {r : Redis} where
  after-ne_out_of_fuel :
      (h : Handled r) (f : Conn r → BatchEnd × Conn r)
      → ((c : Conn r) → (f c).0 ≢ out_of_fuel)
      → (after h f).0 ≢ out_of_fuel
  unfolding after
  after-ne_out_of_fuel (done, c) f ends = ends c
  after-ne_out_of_fuel (failed e, c) f ends = λ q. cc

module _ ⦃bo : ByteOrder⦄ {r : Redis} (p : Process) where
  round-ne_out_of_fuel :
      (res : ParseResult (Request × ℕ)) (buf : Bytes) (f : Bytes → Conn r → BatchEnd × Conn r)
      (c : Conn r)
      → Consumes buf res
      → ((b : Bytes) (c' : Conn r) → length b < length buf → (f b c').0 ≢ out_of_fuel)
      → (round p res buf f c).0 ≢ out_of_fuel
  unfolding round
  round-ne_out_of_fuel (ok (req, used)) buf f c h ends =
      after-ne_out_of_fuel (handle p req c) (f (drop used buf))
        (λ c'. ends (drop used buf) c' (omega (arith, h.within, h.total, length-drop used buf)))
  round-ne_out_of_fuel incomplete buf f c h ends = λ q. cc
  round-ne_out_of_fuel bad_magic buf f c h ends = λ q. cc
  round-ne_out_of_fuel (malformed_frame o b skip) buf f c h ends =
      ends (drop skip buf) _ (omega (arith, length-drop skip buf))
  round-ne_out_of_fuel (oversized_frame o b) buf f c h ends = λ q. cc

  -- With fuel above the length of the buffer, the loop over its frames ends by one of its exits.
  pub batch-ne_out_of_fuel :
      (fuel : ℕ) (buf : Bytes) (c : Conn r)
      → length buf < fuel
      → (batch p fuel buf c).0 ≢ out_of_fuel
  unfolding batch
  batch-ne_out_of_fuel zero buf c h = absurd (omega arith)
  batch-ne_out_of_fuel (suc fuel) buf c h =
      round-ne_out_of_fuel (try_parse_request buf) buf (batch p fuel) c
        (try_parse_request-Consumes buf)
        (λ b c' shorter. batch-ne_out_of_fuel fuel b c' (omega arith))

  -- go on with the bytes of the next read, if the loop waits for them
  abbrev pub resume : ℕ → Bytes → BatchEnd × Conn r → BatchEnd × Conn r
  resume fuel more (left rest, c) = batch p fuel (rest ++ more) c
  resume fuel more (refused, c) = (refused, c)
  resume fuel more (oversized, c) = (oversized, c)
  resume fuel more (stopped e, c) = (stopped e, c)
  resume fuel more (out_of_fuel, c) = (out_of_fuel, c)

  resume-after :
      (fuel : ℕ) (more : Bytes) (h : Handled r) (f g : Conn r → BatchEnd × Conn r)
      → ((c : Conn r) → g c ≡ resume fuel more (f c))
      → after h g ≡ resume fuel more (after h f)
  unfolding after
  resume-after fuel more (done, c) f g same = same c
  resume-after fuel more (failed e, c) f g same = refl

  round-append :
      (fuel : ℕ) (res : ParseResult (Request × ℕ)) (xs ys : Bytes)
      (f g : Bytes → Conn r → BatchEnd × Conn r) (c : Conn r)
      → res ≢ incomplete
      → Consumes xs res
      → ((b : Bytes) (c' : Conn r)
          → length b < length xs
          → g (b ++ ys) c' ≡ resume fuel ys (f b c'))
      → round p res (xs ++ ys) g c ≡ resume fuel ys (round p res xs f c)
  unfolding round
  round-append fuel (ok (req, used)) xs ys f g c ne h same =
      rw (drop-append_le used xs ys (h.within)) (
        resume-after fuel ys (handle p req c) (f (drop used xs)) (g (drop used xs ++ ys))
          (λ c'. same (drop used xs) c' (omega (arith, h.within, h.total, length-drop used xs))))
  round-append fuel incomplete xs ys f g c ne h same = absurd (ne refl)
  round-append fuel bad_magic xs ys f g c ne h same = refl
  round-append fuel (malformed_frame o b skip) xs ys f g c ne h same =
      rw (drop-append_le skip xs ys h.1)
        (same (drop skip xs) _ (omega (arith, length-drop skip xs)))
  round-append fuel (oversized_frame o b) xs ys f g c ne h same = refl

  -- Handling a buffer as a whole is handling its first piece and then, if that ends in an incomplete
  -- frame, what it left with the second piece behind: the responses, the counters, the database
  -- and the end are the same. The fuels are any that are above the lengths.
  pub batch-append :
      (f g h : ℕ) (xs ys : Bytes) (c : Conn r)
      → length xs < f
      → length (xs ++ ys) < g
      → length (xs ++ ys) < h
      → batch p g (xs ++ ys) c ≡ resume h ys (batch p f xs c)
  unfolding batch round
  batch-append zero g h xs ys c hf hg hh = absurd (omega arith)
  batch-append (suc f) zero h xs ys c hf hg hh = absurd (omega arith)
  batch-append (suc f) (suc g) h xs ys c hf hg hh = elim (incomplete-cases (try_parse_request xs)) [
    | inl e ↦ rw (e, round) (batch_fuel p (suc g) h (xs ++ ys) c hg hh)
    | inr ne ↦ rw (try_parse_request-append xs ys ne) (
        round-append h (try_parse_request xs) xs ys (batch p f) (batch p g) c ne
          (try_parse_request-Consumes xs)
          (λ b c' shorter.
            batch-append f g h b ys c' (omega arith)
              (omega (arith, length-append b ys, length-append xs ys))
              (omega (arith, length-append b ys, length-append xs ys))))
  ]
