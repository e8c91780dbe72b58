-- ===== src/Server/Detect/Pieces.antt =====
-- The protocol is detected however the first bytes are cut into reads.
use mathlib.Core.Path.{subst}
use red_couch.Base.{
  ℕ, ◌≤◌, ◌<◌, ◌≡◌, ◌≢◌, refl, ap, ◌∙◌, true, false, ◌&&◌, ◌||◌, leb, ◌==◌, List, [], ◌∷◌, ◌++◌,
  Bytes, append-nil, Bool-cases, inl, inr, arith, ◌⊎◌,
}
use red_couch.Protocol.Wire.{magic_req}
use red_couch.Server.Handler.{done}
use red_couch.Server.Session.{Read}
use red_couch.Server.Detect.{
  Detected, binary, text, ended, waiting, is_line_end, skip_line_ends, by_first, detect,
  handle_conn,
}
use red_couch.Ascii.Data.Delivery.{pieces, joined}

-- The magic byte chooses the binary handler and a printable byte or a blank the text handler, with
-- this buffer and these reads; any other byte ends the connection.
abbrev pub Chooses : ℕ → Bytes → List Read → Detected → Type 0
Chooses c buf reads d =
    ((c ≡ 0x80) × (d ≡ binary buf reads))
    ⊎ (((32 ≤ c) × ((c ≤ 126) × (d ≡ text buf reads)))
        ⊎ ((c ≢ 0x80) × (((c < 32) ⊎ (126 < c)) × (d ≡ ended done))))

-- What becomes of the bytes behind the line ends: the first chooses, and the buffer and the reads
-- that are left make them up.
abbrev pub Detects : Bytes → Detected → Type 0
Detects [] d = d ≡ waiting
Detects (c ∷ cs) d =
    (buf : Bytes) × (left : List Bytes) × (Chooses c buf (pieces left) d
      × (buf ++ joined left ≡ c ∷ cs))

-- bytes that are all `\r` or `\n`
abbrev pub AreLineEnds : Bytes → Type 0
AreLineEnds [] = Unit {0}
AreLineEnds (c ∷ cs) = ((c ≡ 13) ⊎ (c ≡ 10)) × AreLineEnds cs

-- nothing, or bytes whose first is neither
abbrev pub BeginsElse : Bytes → Type 0
BeginsElse [] = Unit {0}
BeginsElse (c ∷ cs) = (c ≢ 13) × (c ≢ 10)

by_first-Chooses :
    (c : ℕ) (buf : Bytes) (reads : List Read) → Chooses c buf reads (by_first c buf reads)
unfolding by_first
by_first-Chooses c buf reads = elim (Bool-cases (c == magic_req)) [
  | inl magic ↦ rw magic (inl (ground arith, refl))
  | inr other ↦ rw other (elim (Bool-cases ((leb 0x21 c && leb c 0x7E) || c == b' ')) [
    | inl shown ↦ rw shown (inr (inl (ground arith, (ground arith, refl))))
    | inr hidden ↦ rw hidden (inr (inr (ground arith, (outside hidden, refl))))
  ])
]
  where
    outside : ((leb 0x21 c && leb c 0x7E) || c == b' ') ≡ false → (c < 32) ⊎ (126 < c)
    outside e = ground arith

-- the line ends are skipped, and nothing else
skip_line_ends_lem :
    (ends rest : Bytes) → AreLineEnds ends → BeginsElse rest → skip_line_ends (ends ++ rest) ≡ rest
unfolding skip_line_ends
skip_line_ends_lem [] [] h k = refl
skip_line_ends_lem [] (c ∷ cs) h (not_cr, not_lf) = ground arith
skip_line_ends_lem (c ∷ ends) rest (inl cr, hs) k = rw cr (skip_line_ends_lem ends rest hs k)
skip_line_ends_lem (c ∷ ends) rest (inr lf, hs) k = rw lf (skip_line_ends_lem ends rest hs k)

skip-append_nil : (a b : Bytes) → skip_line_ends a ≡ [] → skip_line_ends (a ++ b) ≡ skip_line_ends b
unfolding skip_line_ends
skip-append_nil [] b h = refl
skip-append_nil (c ∷ a) b h = elim (Bool-cases (is_line_end c)) [
  | inl e ↦ rw e (skip-append_nil a b (rest e))
  | inr e ↦ absurd (kept e)
]
  where
    rest : is_line_end c ≡ true → skip_line_ends a ≡ []
    rest e = rw e at h

    kept : is_line_end c ≡ false → ⊥
    kept e = ground arith

skip-append_cons :
    (a b : Bytes) (c : ℕ) (cs : Bytes)
    → skip_line_ends a ≡ c ∷ cs
    → skip_line_ends (a ++ b) ≡ c ∷ (cs ++ b)
unfolding skip_line_ends
skip-append_cons [] b c cs h = absurd (ground arith)
skip-append_cons (x ∷ a) b c cs h = elim (Bool-cases (is_line_end x)) [
  | inl e ↦ rw e (skip-append_cons a b c cs (rest e))
  | inr e ↦ rw e (ap (λ l. l ++ b) (kept e))
]
  where
    rest : is_line_end x ≡ true → skip_line_ends a ≡ c ∷ cs
    rest e = rw e at h

    kept : is_line_end x ≡ false → x ∷ a ≡ c ∷ cs
    kept e = rw e at h

List-cases : (l : Bytes) → (l ≡ []) ⊎ ((c : ℕ) × (cs : Bytes) × (l ≡ c ∷ cs))
List-cases [] = inl refl
List-cases (c ∷ cs) = inr (c, cs, refl)

-- behind the last piece
last-Detects : (l : Bytes) → Detects l (elim l [ [] ↦ waiting | c ∷ cs ↦ by_first c (c ∷ cs) [] ])
last-Detects [] = refl
last-Detects (c ∷ cs) = (c ∷ cs, [], (by_first-Chooses c (c ∷ cs) [], append-nil (c ∷ cs)))

detect-Detects :
    (arriving : List Bytes) (buf : Bytes)
    → Detects (skip_line_ends (buf ++ joined arriving)) (detect (pieces arriving) buf)
unfolding detect
detect-Detects [] buf = rw (append-nil buf) (last-Detects (skip_line_ends buf))
detect-Detects (b ∷ bs) buf = elim (List-cases (skip_line_ends buf)) [
  | inl e ↦ rw (skip-append_nil buf (b ++ joined bs) e, detect, e) (detect-Detects bs b)
  | inr (c, cs, e) ↦
      rw (skip-append_cons buf (b ++ joined bs) c cs e, detect, e)
        (c ∷ cs, b ∷ bs, (by_first-Chooses c (c ∷ cs) (pieces (b ∷ bs)), refl))
]

-- However a connection's bytes are cut into reads: the `\r` and `\n` in front are skipped, and the
-- first byte behind them chooses: 0x80 the binary handler, 0x20 to 0x7E the text handler, which is
-- given all bytes from that one on, in its buffer and in the reads to come; any other byte ends the
-- connection. Where there are only line ends, the connection waits.
pub handle_conn-Detects :
    (arriving : List Bytes) (ends rest : Bytes)
    → joined arriving ≡ ends ++ rest
    → AreLineEnds ends
    → BeginsElse rest
    → Detects rest (handle_conn (pieces arriving))
unfolding handle_conn
handle_conn-Detects arriving ends rest e h k =
    subst (λ l. Detects l (detect (pieces arriving) []))
      (ap skip_line_ends e ∙ skip_line_ends_lem ends rest h k) (detect-Detects arriving [])
