-- ===== src/Decimal.antt =====
-- Decimal text, as the standard library writes and reads unsigned integers: `to_string`, and
-- `str::parse::<u32>` and `str::parse::<u64>`, which take digits behind at most one plus sign and
-- refuse a value above the type's maximum.
use mathlib.Core.List.{concat-ne-nil}
use red_couch.Base.{
  ℕ, zero, suc, ◌+◌, ◌-◌, ◌*◌, ◌/◌, ◌%◌, ◌^◌, ◌≤◌, ◌<◌, ◌≡◌, refl, ◌∙◌, ap, ◌&&◌, Option, none,
  some, [], ◌∷◌, ◌++◌, Bytes, ltb, leb, ◌==◌, if◌then◌else◌, Bool-cases, Option-cases, ◌≢◌, inl,
  inr, arith,
}

-- the digits of `n`, with fuel above `n`
digits : ℕ → ℕ → Bytes
digits zero n = []
digits (suc f) n =
    let more = digits f (n / 10) ++ ((b'0' + n % 10) ∷ []) in
    if ltb n 10 then (b'0' + n) ∷ [] else more

unfoldable pub to_string : ℕ → Bytes
unfolding digits
to_string n = digits (suc n) n

-- the value of one more digit, if it is one and the value stays within `max`
push_digit : ℕ → ℕ → ℕ → Option ℕ
push_digit max acc c =
    if leb b'0' c && leb c b'9'
    then (if leb (acc * 10 + (c - b'0')) max then some (acc * 10 + (c - b'0')) else none)
    else none

digits_value : ℕ → ℕ → Bytes → Option ℕ
unfolding push_digit
digits_value max acc [] = some acc
digits_value max acc (c ∷ cs) = elim (push_digit max acc c) [
  | none ↦ none
  | some acc' ↦ digits_value max acc' cs
]

-- a sign alone is no number
unfoldable pub parse_unsigned : ℕ → Bytes → Option ℕ
unfolding digits_value
parse_unsigned max [] = none
parse_unsigned max (c ∷ []) = if c == b'+' then none else digits_value max 0 (c ∷ [])
parse_unsigned max (c ∷ d ∷ cs) =
    if c == b'+' then digits_value max 0 (d ∷ cs) else digits_value max 0 (c ∷ d ∷ cs)

abbrev pub parse_u32 : Bytes → Option ℕ
parse_u32 = parse_unsigned (2 ^ 32 - 1)

abbrev pub parse_u64 : Bytes → Option ℕ
parse_u64 = parse_unsigned (2 ^ 64 - 1)

digits_value-le :
    (max acc : ℕ) (cs : Bytes) (n : ℕ) → digits_value max acc cs ≡ some n → acc ≤ max → n ≤ max
unfolding digits_value
digits_value-le max acc [] n h k = ground arith
digits_value-le max acc (c ∷ cs) n h k =
    ground (arith, digits_value-le max (acc * 10 + (c - b'0')) cs n)

digits_value-concat :
    (max acc v : ℕ) (cs : Bytes) (c w : ℕ)
    → digits_value max acc cs ≡ some v
    → push_digit max v c ≡ some w
    → digits_value max acc (cs ++ (c ∷ [])) ≡ some w
unfolding digits_value
digits_value-concat max acc v [] c w h k = ground arith
digits_value-concat max acc v (x ∷ cs) c w h k = elim (Option-cases (push_digit max acc x)) [
  | inl e ↦ absurd (bad e h)
  | inr (acc', e) ↦
      rw (e, digits_value) (digits_value-concat max acc' v cs c w (rw (e, digits_value) at h) k)
]
  where
    bad : push_digit max acc x ≡ none → digits_value max acc (x ∷ cs) ≡ some v → ⊥
    bad e q = ground arith

push_digit_lem :
    (max q r : ℕ) → r < 10 → q * 10 + r ≤ max → push_digit max q (b'0' + r) ≡ some (q * 10 + r)
unfolding push_digit
push_digit_lem max q r h k = ground arith

digits_value-digits : (max f n : ℕ) → n < f → n ≤ max → digits_value max 0 (digits f n) ≡ some n
unfolding digits digits_value
digits_value-digits max zero n h k = absurd (omega arith)
digits_value-digits max (suc f) n h k = elim (Bool-cases (ltb n 10)) [
  | inl small ↦ rw small (ground (arith, push_digit_lem max 0 n))
  | inr big ↦ rw big (
      digits_value-concat max 0 (n / 10) (digits f (n / 10)) (b'0' + n % 10) n
        (digits_value-digits max f (n / 10) (ground arith) (omega arith))
        (push_digit_lem max (n / 10) (n % 10) (omega arith) (omega arith) ∙ ap some (div_mod n)))
]
  where
    div_mod : (a : ℕ) → a / 10 * 10 + a % 10 ≡ a
    div_mod a = omega arith

-- where the digits have a value, there is no sign in front of them
parse_unsigned-digits :
    (max : ℕ) (cs : Bytes) {v : ℕ}
    → cs ≢ []
    → digits_value max 0 cs ≡ some v
    → parse_unsigned max cs ≡ some v
unfolding parse_unsigned
parse_unsigned-digits max [] ne h = absurd (ne refl)
parse_unsigned-digits max (c ∷ []) ne h = ground arith
parse_unsigned-digits max (c ∷ d ∷ cs) ne h = ground arith

digits-ne_nil : (f n : ℕ) → digits (suc f) n ≢ []
unfolding digits
digits-ne_nil f n = ground (arith, concat-ne-nil (b'0' + n % 10) (digits f (n / 10)))

-- A number within the type's range is read back from its decimal text.
pub parse_unsigned-to_string : (max n : ℕ) → n ≤ max → parse_unsigned max (to_string n) ≡ some n
unfolding to_string
parse_unsigned-to_string max n h =
    parse_unsigned-digits max (digits (suc n) n) (digits-ne_nil n n)
      (digits_value-digits max (suc n) n (omega arith) h)

-- A number that was read is within the type's range.
pub parse_unsigned-le : (max : ℕ) (cs : Bytes) (n : ℕ) → parse_unsigned max cs ≡ some n → n ≤ max
unfolding parse_unsigned
parse_unsigned-le max [] n h = cc
parse_unsigned-le max (c ∷ []) n h = ground (arith, digits_value-le max 0 (c ∷ []) n)
parse_unsigned-le max (c ∷ d ∷ cs) n h =
    ground (arith, digits_value-le max 0 (d ∷ cs) n, digits_value-le max 0 (c ∷ d ∷ cs) n)

-- every byte is a decimal digit
abbrev pub IsDigits : Bytes → Type 0
IsDigits [] = Unit {0}
IsDigits (c ∷ cs) = ((b'0' ≤ c) × (c ≤ b'9')) × IsDigits cs

IsDigits-concat :
    (cs : Bytes) (c : ℕ) → IsDigits cs → b'0' ≤ c → c ≤ b'9' → IsDigits (cs ++ (c ∷ []))
IsDigits-concat [] c h lo hi = ((lo, hi), tt)
IsDigits-concat (x ∷ cs) c (h, hs) lo hi = (h, IsDigits-concat cs c hs lo hi)

digits-IsDigits : (f n : ℕ) → IsDigits (digits f n)
unfolding digits
digits-IsDigits zero n = tt
digits-IsDigits (suc f) n = elim (Bool-cases (ltb n 10)) [
  | inl small ↦ rw small ((omega arith, ground arith), tt)
  | inr big ↦ rw big (
      IsDigits-concat (digits f (n / 10)) (b'0' + n % 10) (digits-IsDigits f (n / 10)) (omega arith)
        (omega arith))
]

pub to_string-IsDigits : (n : ℕ) → IsDigits (to_string n)
unfolding to_string
to_string-IsDigits n = digits-IsDigits (suc n) n

pub to_string-ne_nil : (n : ℕ) → to_string n ≢ []
unfolding to_string
to_string-ne_nil n = digits-ne_nil n n
