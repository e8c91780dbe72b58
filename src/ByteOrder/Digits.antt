-- ===== src/ByteOrder/Digits.antt =====
-- A number as its bytes, the most significant first: `to_be_bytes` of the standard library at
-- each width, and the number that a byte string stands for.
use native.Mathlib.Nat.{pow-suc}
use red_couch.Base.{
  ℕ, zero, suc, ◌+◌, ◌*◌, ◌/◌, ◌%◌, ◌<◌, ◌^◌, ◌≡◌, refl, [], ◌∷◌, ◌++◌, Bytes, length,
  length-append, arith,
}

unfoldable pub to_be : ℕ → ℕ → Bytes
to_be zero n = []
to_be (suc w) n = to_be w (n / 256) ++ (n % 256 ∷ [])

of_be_from : ℕ → Bytes → ℕ
of_be_from acc [] = acc
of_be_from acc (b ∷ bs) = of_be_from (acc * 256 + b) bs

unfoldable pub of_be : Bytes → ℕ
unfolding of_be_from
of_be bs = of_be_from 0 bs

of_be_from-concat :
    (acc : ℕ) (bs : Bytes) (b : ℕ) → of_be_from acc (bs ++ (b ∷ [])) ≡ of_be_from acc bs * 256 + b
unfolding of_be_from
of_be_from-concat acc [] b = refl
of_be_from-concat acc (x ∷ bs) b = of_be_from-concat (acc * 256 + x) bs b

pub length-to_be : (w n : ℕ) → length (to_be w n) ≡ w
unfolding to_be
length-to_be zero n = refl
length-to_be (suc w) n =
    omega (arith, length-append (to_be w (n / 256)) (n % 256 ∷ []), length-to_be w (n / 256))

-- A number that fits the width is the value of its bytes.
pub of_be-to_be : (w n : ℕ) → n < 256 ^ w → of_be (to_be w n) ≡ n
unfolding to_be of_be
of_be-to_be zero n h = omega arith
of_be-to_be (suc w) n h =
    rw (of_be_from-concat 0 (to_be w (n / 256)) (n % 256))
      (omega (arith, of_be-to_be w (n / 256) (omega (arith, pow-suc 256 w))))
