-- ===== src/Lua/Number.antt =====
-- Lua's numbers, as the scripts use them: doubles, which are exact below 2^53. `tostring` writes 14
-- significant digits.
use red_couch.Base.{
  ℕ, ◌+◌, ◌-◌, ◌^◌, ◌≤◌, ◌<◌, ◌≡◌, Bool, Option, some, Bytes, ltb, leb, ◌==◌, ℤ, pos,
}
use red_couch.Decimal.{to_string}

pub record LuaNumber : Type 1 where
  pub Num : Type 0
  pub tonumber : Bytes → Option Num
  -- the number of an integer reply, and a literal
  pub of_int : ℤ → Num
  pub lt : Num → Num → Bool
  pub le : Num → Num → Bool
  pub num_eq : Num → Num → Bool
  pub add : Num → Num → Num
  pub sub : Num → Num → Num
  pub tostring : Num → Bytes
  -- `string.format('%.0f', n)`
  pub format_whole : Num → Bytes
  -- what a command reads from a number that it is given for a count of seconds
  pub as_seconds : Num → Option ℕ

abbrev pub of_nat : (l : LuaNumber) → ℕ → l.Num
of_nat l n = l.of_int (pos n)

-- Arithmetic on whole numbers that a double holds is exact.
pub record IsExact (l : LuaNumber) : Type 0 where
  pub reads : (n : ℕ) → n < 2 ^ 53 → l.tonumber (to_string n) ≡ some (of_nat l n)
  pub compares_lt : (a b : ℕ) → a < 2 ^ 53 → b < 2 ^ 53 → l.lt (of_nat l a) (of_nat l b) ≡ ltb a b
  pub compares_le : (a b : ℕ) → a < 2 ^ 53 → b < 2 ^ 53 → l.le (of_nat l a) (of_nat l b) ≡ leb a b
  pub compares_eq :
      (a b : ℕ) → a < 2 ^ 53 → b < 2 ^ 53 → l.num_eq (of_nat l a) (of_nat l b) ≡ (a == b)
  pub adds : (a b : ℕ) → a + b < 2 ^ 53 → l.add (of_nat l a) (of_nat l b) ≡ of_nat l (a + b)
  pub subtracts :
      (a b : ℕ) → b ≤ a → a < 2 ^ 53 → l.sub (of_nat l a) (of_nat l b) ≡ of_nat l (a - b)
  pub writes : (n : ℕ) → n < 10 ^ 14 → l.tostring (of_nat l n) ≡ to_string n
  pub formats : (n : ℕ) → n < 2 ^ 53 → l.format_whole (of_nat l n) ≡ to_string n
  pub seconds : (n : ℕ) → n < 2 ^ 53 → l.as_seconds (of_nat l n) ≡ some n
