-- ===== src/Ascii/Line.antt =====
-- `find_line_end` of src/ascii.rs, and what it finds.
use red_couch.Base.{
  ℕ, suc, ◌+◌, ◌-◌, ◌≡◌, refl, ap, ◌∙◌, ◌≢◌, ◌⊎◌, inl, inr, Bool, true, false, Option, none, some,
  [], ◌∷◌, ◌++◌, Bytes, ◌==◌, length, if◌then◌else◌, arith, append_assoc, append-nil, Bool-cases,
  length-append,
}

is_cr : Option ℕ → Bool
is_cr none = false
is_cr (some c) = c == b'\r'

-- the loop at index `i`, behind the byte `before`, if there is one
line_end_from : Option ℕ → ℕ → Bytes → Option (ℕ × ℕ)
unfolding is_cr
line_end_from before i [] = none
line_end_from before i (c ∷ cs) =
    let later = line_end_from (some c) (suc i) cs in
    if c == b'\n' then (if is_cr before then some (i - 1, i + 1) else some (i, i + 1)) else later

-- the index behind the line and the index behind its terminator
unfoldable pub find_line_end : Bytes → Option (ℕ × ℕ)
unfolding line_end_from
find_line_end buf = line_end_from none 0 buf

abbrev pub NoNewline : Bytes → Type 0
NoNewline [] = Unit {0}
NoNewline (c ∷ cs) = (c ≢ b'\n') × NoNewline cs

abbrev pub last : Bytes → Option ℕ
last [] = none
last (c ∷ []) = some c
last (c ∷ d ∷ cs) = last (d ∷ cs)

-- No end: there is no newline. An end: the first newline ends the line, with the carriage return in
-- front of it where there is one.
abbrev pub Found : Bytes → Option (ℕ × ℕ) → Type 0
Found buf none = NoNewline buf
Found buf (some (line_end, next)) =
    (line : Bytes) × (rest : Bytes) × (NoNewline line
      × (line_end ≡ length line)
      × (((buf ≡ line ++ (b'\r' ∷ b'\n' ∷ rest)) × (next ≡ line_end + 2))
          ⊎ (((buf ≡ line ++ (b'\n' ∷ rest)) × (last line ≢ some b'\r')) × (next ≡ line_end + 1))))

NoNewline-concat : (cs : Bytes) (c : ℕ) → NoNewline cs → c ≢ b'\n' → NoNewline (cs ++ (c ∷ []))
NoNewline-concat [] c h k = (k, tt)
NoNewline-concat (x ∷ cs) c (p, h) k = (p, NoNewline-concat cs c h k)

last-concat : (cs : Bytes) (c : ℕ) → last (cs ++ (c ∷ [])) ≡ some c
last-concat [] c = refl
last-concat (x ∷ []) c = refl
last-concat (x ∷ y ∷ cs) c = last-concat (y ∷ cs) c

-- a line behind which a carriage return stands
before_cr :
    (cs : Bytes)
    → NoNewline cs
    → is_cr (last cs) ≡ true
    → (line : Bytes) × (NoNewline line × (cs ≡ line ++ (b'\r' ∷ [])))
unfolding is_cr
before_cr [] h e = absurd (ground arith)
before_cr (c ∷ []) h e = ([], (tt, ap (λ b. b ∷ []) (carriage e)))
  where
    carriage : is_cr (some c) ≡ true → c ≡ b'\r'
    carriage k = ground arith
before_cr (c ∷ d ∷ cs) (p, h) e =
    let (line, (q, split)) = before_cr (d ∷ cs) h e in (c ∷ line, ((p, q), ap (◌∷◌ c) split))

last_not_cr : (cs : Bytes) → is_cr (last cs) ≡ false → last cs ≢ some b'\r'
unfolding is_cr
last_not_cr cs e k = absurd (ground arith)

-- an end at a newline
newline-Found :
    (line cs : Bytes)
    → NoNewline line
    → Found (line ++ (b'\n' ∷ cs)) (
        if is_cr (last line)
        then some (length line - 1, length line + 1)
        else some (length line, length line + 1))
newline-Found line cs h = elim (Bool-cases (is_cr (last line))) [
  | inr e ↦ rw e (line, cs, (h, refl, inr ((refl, last_not_cr line e), refl)))
  | inl e ↦
      let (start, (none_in, split)) = before_cr line h e in
      rw e (start, cs, (none_in, size start split, inl (text start split, next start split)))
]
  where
    size : (start : Bytes) → line ≡ start ++ (b'\r' ∷ []) → length line - 1 ≡ length start
    size start k = rw k (omega (arith, length-append start (b'\r' ∷ [])))

    text :
        (start : Bytes)
        → line ≡ start ++ (b'\r' ∷ [])
        → line ++ (b'\n' ∷ cs) ≡ start ++ (b'\r' ∷ b'\n' ∷ cs)
    text start k = rw k (append_assoc start (b'\r' ∷ []) (b'\n' ∷ cs))

    next : (start : Bytes) → line ≡ start ++ (b'\r' ∷ []) → length line + 1 ≡ length line - 1 + 2
    next start k = rw k (omega (arith, length-append start (b'\r' ∷ [])))

line_end_from-Found :
    (line cs : Bytes)
    → NoNewline line
    → Found (line ++ cs) (line_end_from (last line) (length line) cs)
unfolding line_end_from
line_end_from-Found line [] h = rw (append-nil line) h
line_end_from-Found line (c ∷ cs) h = elim (Bool-cases (c == b'\n')) [
  | inl e ↦ rw (e, is_newline e) (newline-Found line cs h)
  | inr e ↦ rw e (
      later (line_end_from-Found (line ++ (c ∷ [])) cs (NoNewline-concat line c h (not_newline e))))
]
  where
    is_newline : (c == b'\n') ≡ true → c ≡ b'\n'
    is_newline k = ground arith

    not_newline : (c == b'\n') ≡ false → c ≢ b'\n'
    not_newline k = ground arith

    size : length (line ++ (c ∷ [])) ≡ suc (length line)
    size = omega (arith, length-append line (c ∷ []))

    later :
        Found
          ((line ++ (c ∷ [])) ++ cs)
          (line_end_from (last (line ++ (c ∷ []))) (length (line ++ (c ∷ []))) cs)
        → Found (line ++ (c ∷ cs)) (line_end_from (some c) (suc (length line)) cs)
    later f = rw (last-concat line c, size, append_assoc line (c ∷ []) cs) at f

-- On every buffer, `find_line_end` finds the first line, without its terminator, and what follows
-- it; where it finds none, there is no newline.
pub find_line_end-Found : (buf : Bytes) → Found buf (find_line_end buf)
unfolding find_line_end
find_line_end-Found buf = line_end_from-Found [] buf tt

some_pair :
    {a a' b b' : ℕ} → a ≡ a' → b ≡ b' → ◌≡◌ {A = Option (ℕ × ℕ)} (some (a, b)) (some (a', b'))
some_pair p q = λ i. some (p i, q i)

line_end_from-line :
    (line rest : Bytes) (before : Option ℕ) (i : ℕ)
    → NoNewline line
    → line_end_from before i (line ++ (b'\r' ∷ b'\n' ∷ rest))
      ≡ some (i + length line, i + length line + 2)
unfolding line_end_from is_cr
line_end_from-line [] rest before i h = some_pair (omega arith) (omega arith)
line_end_from-line (c ∷ cs) rest before i (p, h) =
    rw (not_newline p)
      (line_end_from-line cs rest (some c) (suc i) h ∙ some_pair (omega arith) (omega arith))
  where
    not_newline : c ≢ b'\n' → (c == b'\n') ≡ false
    not_newline p = ground arith

-- the end of a line is found behind its bytes
pub find_line_end-line :
    (line rest : Bytes)
    → NoNewline line
    → find_line_end (line ++ (b'\r' ∷ b'\n' ∷ rest)) ≡ some (length line, length line + 2)
unfolding find_line_end
find_line_end-line line rest h =
    line_end_from-line line rest none 0 h ∙ some_pair (omega arith) (omega arith)
