-- ===== src/Base/Lists.antt =====
-- Byte strings: lists measured and indexed by native numbers, under the library's names.
use Prim.Native.Nat.{ℕ, zero, suc, ◌+◌, ◌-◌, ◌<◌, ◌≤◌}
use Prim.Native.Nat.add
use Prim.Native.Nat.sub
use mathlib.Core.Path.{◌≡◌, refl, ap}
use mathlib.Core.List.{List, [], ◌∷◌, ◌++◌}
use native.Mathlib.Omega.{arith}

abbrev pub Bytes : Type 0
Bytes = List ℕ

module _ {ℓ} {A : Type ℓ} where
  abbrev pub length : List A → ℕ
  length [] = 0
  length (x ∷ xs) = suc (length xs)

  abbrev pub get_or : List A → ℕ → A → A
  get_or [] i d = d
  get_or (x ∷ xs) zero d = x
  get_or (x ∷ xs) (suc i) d = get_or xs i d

  abbrev pub take : ℕ → List A → List A
  take zero xs = []
  take (suc n) [] = []
  take (suc n) (x ∷ xs) = x ∷ take n xs

  abbrev pub drop : ℕ → List A → List A
  drop zero xs = xs
  drop (suc n) [] = []
  drop (suc n) (x ∷ xs) = drop n xs

  abbrev pub replicate : ℕ → A → List A
  replicate zero a = []
  replicate (suc n) a = a ∷ replicate n a

module _ {ℓ} {A : Type ℓ} where
  -- `&xs[lo..hi]`
  abbrev pub slice : ℕ → ℕ → List A → List A
  slice lo hi xs = take (hi - lo) (drop lo xs)

  -- `xs[at..at + ys.len()].copy_from_slice(ys)`
  abbrev pub write_at : ℕ → List A → List A → List A
  write_at n [] xs = xs
  write_at n (y ∷ ys) [] = []
  write_at zero (y ∷ ys) (x ∷ xs) = y ∷ write_at zero ys xs
  write_at (suc n) (y ∷ ys) (x ∷ xs) = x ∷ write_at n (y ∷ ys) xs

module _ {ℓ} {A : Type ℓ} where
  pub length-append : (xs ys : List A) → length (xs ++ ys) ≡ length xs + length ys
  length-append [] ys = omega arith
  length-append (x ∷ xs) ys = omega (arith, length-append xs ys)

  pub take-append_le : (n : ℕ) (xs ys : List A) → n ≤ length xs → take n (xs ++ ys) ≡ take n xs
  take-append_le zero xs ys h = refl
  take-append_le (suc n) [] ys h = absurd (omega arith)
  take-append_le (suc n) (x ∷ xs) ys h = ap (◌∷◌ x) (take-append_le n xs ys (omega arith))

  pub drop-append_le :
      (n : ℕ) (xs ys : List A) → n ≤ length xs → drop n (xs ++ ys) ≡ drop n xs ++ ys
  drop-append_le zero xs ys h = refl
  drop-append_le (suc n) [] ys h = absurd (omega arith)
  drop-append_le (suc n) (x ∷ xs) ys h = drop-append_le n xs ys (omega arith)

  pub get_or-append :
      (xs ys : List A) (i : ℕ) (d : A) → i < length xs → get_or (xs ++ ys) i d ≡ get_or xs i d
  get_or-append [] ys i d h = absurd (omega arith)
  get_or-append (x ∷ xs) ys zero d h = refl
  get_or-append (x ∷ xs) ys (suc i) d h = get_or-append xs ys i d (omega arith)

  pub take-length_append : (xs ys : List A) → take (length xs) (xs ++ ys) ≡ xs
  take-length_append [] ys = refl
  take-length_append (x ∷ xs) ys = ap (◌∷◌ x) (take-length_append xs ys)

  pub drop-length_append : (xs ys : List A) → drop (length xs) (xs ++ ys) ≡ ys
  drop-length_append [] ys = refl
  drop-length_append (x ∷ xs) ys = drop-length_append xs ys

  pub length-drop : (n : ℕ) (xs : List A) → length (drop n xs) ≡ length xs - n
  length-drop zero xs = omega arith
  length-drop (suc n) [] = omega arith
  length-drop (suc n) (x ∷ xs) = omega (arith, length-drop n xs)

  pub length-take : (n : ℕ) (xs : List A) → n ≤ length xs → length (take n xs) ≡ n
  length-take zero xs h = refl
  length-take (suc n) [] h = absurd (omega arith)
  length-take (suc n) (x ∷ xs) h = ap suc (length-take n xs (omega arith))

  pub take-append-drop : (n : ℕ) (xs : List A) → take n xs ++ drop n xs ≡ xs
  take-append-drop zero xs = refl
  take-append-drop (suc n) [] = refl
  take-append-drop (suc n) (x ∷ xs) = ap (◌∷◌ x) (take-append-drop n xs)

  take-nil : (n : ℕ) → take {A = A} n [] ≡ []
  take-nil zero = refl
  take-nil (suc n) = refl

  drop-nil : (n : ℕ) → drop {A = A} n [] ≡ []
  drop-nil zero = refl
  drop-nil (suc n) = refl

  pub drop-drop : (m n : ℕ) (xs : List A) → drop n (drop m xs) ≡ drop (m + n) xs
  drop-drop zero n xs = rw (add.zero n)
  drop-drop (suc m) n [] = rw (add.suc m n) (drop-nil n)
  drop-drop (suc m) n (x ∷ xs) = rw (add.suc m n) (drop-drop m n xs)

  pub replicate-add : (m n : ℕ) (a : A) → replicate (m + n) a ≡ replicate m a ++ replicate n a
  replicate-add zero n a = rw (add.zero n)
  replicate-add (suc m) n a = rw (add.suc m n) (ap (◌∷◌ a) (replicate-add m n a))

  pub write_at-append :
      (xs ys zs : List A) → write_at (length xs) ys (xs ++ zs) ≡ xs ++ write_at zero ys zs
  write_at-append [] ys zs = refl
  write_at-append (x ∷ xs) [] zs = refl
  write_at-append (x ∷ xs) (y ∷ ys) zs = ap (◌∷◌ x) (write_at-append xs (y ∷ ys) zs)

  pub write_at-replicate :
      (ys : List A) (n : ℕ) (a : A)
      → write_at zero ys (replicate (length ys + n) a) ≡ ys ++ replicate n a
  write_at-replicate [] n a = rw (add.zero n)
  write_at-replicate (y ∷ ys) n a =
      rw (add.suc (length ys) n) (ap (◌∷◌ y) (write_at-replicate ys n a))

  pub take-append-slice : (m n : ℕ) (xs : List A) → m ≤ n → take m xs ++ slice m n xs ≡ take n xs
  take-append-slice zero n xs h = rw (sub.zero n)
  take-append-slice (suc m) zero xs h = absurd (omega arith)
  take-append-slice (suc m) (suc n) [] h = take-nil (suc n - suc m)
  take-append-slice (suc m) (suc n) (x ∷ xs) h =
      rw (sub_suc n m) (ap (◌∷◌ x) (take-append-slice m n xs (omega arith)))
    where
      sub_suc : (a b : ℕ) → suc a - suc b ≡ a - b
      sub_suc a b = omega arith

  pub length-slice : (m n : ℕ) (xs : List A) → m ≤ n → n ≤ length xs → length (slice m n xs) ≡ n - m
  length-slice m n xs h k = length-take (n - m) (drop m xs) (omega (arith, length-drop m xs))

  -- the slice that is one part of a concatenation
  pub slice-append_part :
      (pre mid post : List A) (m n : ℕ)
      → m ≡ length pre
      → n ≡ m + length mid
      → slice m n (pre ++ (mid ++ post)) ≡ mid
  slice-append_part pre mid post m n e f =
      rw (size m n (length mid) f, e, drop-length_append pre (mid ++ post))
        (take-length_append mid post)
    where
      size : (a b c : ℕ) → b ≡ a + c → b - a ≡ c
      size a b c h = omega arith

  pub length-take_le : (n : ℕ) (xs : List A) → length (take n xs) ≤ n
  length-take_le zero xs = omega arith
  length-take_le (suc n) [] = omega arith
  length-take_le (suc n) (x ∷ xs) = omega (arith, length-take_le n xs)

-- every element is a byte
abbrev pub IsBytes : Bytes → Type 0
IsBytes [] = Unit {0}
IsBytes (b ∷ bs) = (b < 256) × IsBytes bs
