-- ===== src/Ascii/Data/Delivery.antt =====
-- A data block is delivered however it is cut into reads.
use red_couch.Base.{
  ℕ, suc, ◌+◌, ◌-◌, ◌≤◌, ◌≡◌, ◌≢◌, ◌⊎◌, codes, refl, sym, ap, ◌∙◌, true, List, [], ◌∷◌, ◌++◌, Bytes,
  length, take, drop, slice, ltb, append_assoc, append-nil, length-append, take-append_le,
  drop-append_le, take-length_append, drop-length_append, length-drop, drop-drop, Bool-cases, inl,
  inr, arith,
}
use red_couch.Server.Session.{Read, received}
use red_couch.Ascii.Data.{filled, fill, Block, block, take_block, read_data_block}

-- reads that return these pieces
abbrev pub pieces : List Bytes → List Read
pieces [] = []
pieces (b ∷ bs) = received b ∷ pieces bs

abbrev pub joined : List Bytes → Bytes
joined [] = []
joined (b ∷ bs) = b ++ joined bs

-- the block has these bytes, and the buffer and the reads that are left make up the rest
abbrev pub Delivers : Bytes → Bytes → Block → Type 0
Delivers text rest (block bytes buf reads) =
    (left : List Bytes) × ((bytes ≡ text) × ((reads ≡ pieces left) × (buf ++ joined left ≡ rest)))
Delivers text rest _ = ⊥

-- what closes a block in front of these bytes: `\r\n`, or a bare `\n` with a byte behind it
abbrev pub Closes : Bytes → Bytes → Type 0
Closes line_end rest = (line_end ≡ codes "\r\n") ⊎ ((line_end ≡ codes "\n") × (rest ≢ []))

-- a buffer that holds a block and the two bytes behind it, and more to come
module _ (text more buf : Bytes) (a b : ℕ) (left : List Bytes)
    (e : buf ++ joined left ≡ text ++ (a ∷ b ∷ more)) (h : length text + 2 ≤ length buf) where
  body : take (length text) buf ≡ text
  body =
      sym (take-append_le (length text) buf (joined left) (omega arith))
      ∙ ap (take (length text)) e
      ∙ take-length_append text (a ∷ b ∷ more)

  trail : slice (length text) (length text + 2) buf ≡ a ∷ b ∷ []
  trail = rw (two (length text)) (
      sym (
        take-append_le 2 (drop (length text) buf) (joined left)
          (omega (arith, length-drop (length text) buf)))
      ∙ ap (take 2) tail)
    where
      two : (m : ℕ) → m + 2 - m ≡ 2
      two m = omega arith

      tail : drop (length text) buf ++ joined left ≡ a ∷ b ∷ more
      tail =
          sym (drop-append_le (length text) buf (joined left) (omega arith))
          ∙ ap (drop (length text)) e
          ∙ drop-length_append text (a ∷ b ∷ more)

  behind : (n : ℕ) → n ≤ 2 → drop (length text + n) buf ++ joined left ≡ drop n (a ∷ b ∷ more)
  behind n small =
      sym (drop-append_le (length text + n) buf (joined left) (omega arith))
      ∙ ap (drop (length text + n)) e
      ∙ sym (drop-drop (length text) n (text ++ (a ∷ b ∷ more)))
      ∙ ap (drop n) (drop-length_append text (a ∷ b ∷ more))

  take_block-crlf :
      a ≡ 13 → b ≡ 10 → Delivers text more (take_block (length text) (filled buf (pieces left)))
  unfolding take_block
  take_block-crlf cr lf = rw (trail, cr, lf) (left, (body, (refl, behind 2 (omega arith))))

  take_block-lf :
      a ≡ 10 → Delivers text (b ∷ more) (take_block (length text) (filled buf (pieces left)))
  unfolding take_block
  take_block-lf lf = rw (trail, lf) (left, (body, (refl, behind 1 (omega arith))))

-- the reads fill the buffer, wherever they cut
fill-Delivers :
    (text more rest buf : Bytes) (a b : ℕ) (left : List Bytes)
    → buf ++ joined left ≡ text ++ (a ∷ b ∷ more)
    → ((buf' : Bytes) (left' : List Bytes)
        → buf' ++ joined left' ≡ text ++ (a ∷ b ∷ more)
        → length text + 2 ≤ length buf'
        → Delivers text rest (take_block (length text) (filled buf' (pieces left'))))
    → Delivers text rest (take_block (length text) (fill (pieces left) (length text + 2) buf))
unfolding fill
fill-Delivers text more rest buf a b [] e taken =
    elim (Bool-cases (ltb (length buf) (length text + 2))) [
      | inl short ↦ absurd (too_short short)
      | inr long ↦ rw long (taken buf [] e (ground arith))
    ]
  where
    size : length buf ≡ length text + suc (suc (length more))
    size = ap length (sym (append-nil buf) ∙ e) ∙ length-append text (a ∷ b ∷ more)

    too_short : ltb (length buf) (length text + 2) ≡ true → ⊥
    too_short k = ground (arith, size)
fill-Delivers text more rest buf a b (p ∷ ps) e taken =
    elim (Bool-cases (ltb (length buf) (length text + 2))) [
      | inl short ↦ rw short (
          fill-Delivers text more rest (buf ++ p) a b ps (append_assoc buf p (joined ps) ∙ e) taken)
      | inr long ↦ rw long (taken buf (p ∷ ps) e (ground arith))
    ]

-- Where the buffer and the pieces that the reads return make up a data block, `\r\n` behind it, or a
-- bare `\n` that is not the last byte, and more bytes, `read_data_block` returns the block, and what
-- it leaves is the bytes behind the line end.
pub read_data_block-Delivers :
    (text line_end rest buf : Bytes) (arriving : List Bytes)
    → Closes line_end rest
    → buf ++ joined arriving ≡ text ++ (line_end ++ rest)
    → Delivers text rest (read_data_block (pieces arriving) buf (length text))
unfolding read_data_block
read_data_block-Delivers text line_end rest buf arriving (inl crlf) e =
    fill-Delivers text rest rest buf 13 10 arriving (e ∙ ap (λ l. text ++ (l ++ rest)) crlf)
      (λ buf' left e' h. take_block-crlf text rest buf' 13 10 left e' h refl refl)
read_data_block-Delivers text line_end [] buf arriving (inr (lf, more)) e = absurd (more refl)
read_data_block-Delivers text line_end (x ∷ rest) buf arriving (inr (lf, more)) e =
    fill-Delivers text rest (x ∷ rest) buf 10 x arriving
      (e ∙ ap (λ l. text ++ (l ++ (x ∷ rest))) lf)
      (λ buf' left e' h. take_block-lf text rest buf' 10 x left e' h refl)
