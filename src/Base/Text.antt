-- ===== src/Base/Text.antt =====
-- Texts as byte strings: literals, equality, search, and UTF-8 validity, as in the standard library.
use Prim.Native.Char.{code}
use Prim.Native.String.{String}
use Prim.Native.Nat.{ℕ, ◌<◌}
use mathlib.Core.Path.{◌≡◌, refl}
use mathlib.Core.Logic.{◌↔◌}
use mathlib.Core.Bool.{Bool, true, false, ◌&&◌, ◌||◌}
use mathlib.Core.Option.{Option, none, some}
use mathlib.Core.List.{[], ◌∷◌, ◌++◌}
use native.Mathlib.Omega.{arith}
use red_couch.Base.Tests.{ltb, leb, ◌==◌, if◌then◌else◌}
use red_couch.Base.Lists.{Bytes}

-- the bytes of an ASCII literal
abbrev pub codes : String → Bytes
codes String.[] = []
codes (String.◌∷◌ c s) = code c ∷ codes s

unfoldable pub bytes_eq : Bytes → Bytes → Bool
bytes_eq [] [] = true
bytes_eq (x ∷ xs) (y ∷ ys) = x == y && bytes_eq xs ys
bytes_eq _ _ = false

pub bytes_eq_iff : (a b : Bytes) → (bytes_eq a b ≡ true) ↔ (a ≡ b)
unfolding bytes_eq
bytes_eq_iff (x ∷ a) (y ∷ b) = ground (arith, bytes_eq_iff a b)
bytes_eq_iff _ _ = ground arith

unfoldable pub starts_with : Bytes → Bytes → Bool
starts_with text [] = true
starts_with [] (y ∷ ys) = false
starts_with (x ∷ xs) (y ∷ ys) = x == y && starts_with xs ys

-- `str::contains`
unfoldable pub contains : Bytes → Bytes → Bool
unfolding starts_with
contains [] part = starts_with [] part
contains (x ∷ xs) part = starts_with (x ∷ xs) part || contains xs part

-- what the bytes read so far ask of the next byte
pub data Utf8 : Type 0 where
  start last two three after_e0 after_ed after_f0 after_f4 : Utf8

abbrev within : ℕ → ℕ → ℕ → Bool
within lo hi c = leb lo c && leb c hi

utf8_step : Utf8 → ℕ → Option Utf8
utf8_step start c =
    if ltb c 0x80
    then some start
    else if within 0xC2 0xDF c
    then some last
    else if c == 0xE0
    then some after_e0
    else if c == 0xED
    then some after_ed
    else if within 0xE1 0xEF c
    then some two
    else if c == 0xF0
    then some after_f0
    else if within 0xF1 0xF3 c
    then some three
    else if c == 0xF4
    then some after_f4
    else none
utf8_step last c = if within 0x80 0xBF c then some start else none
utf8_step two c = if within 0x80 0xBF c then some last else none
utf8_step three c = if within 0x80 0xBF c then some two else none
utf8_step after_e0 c = if within 0xA0 0xBF c then some last else none
utf8_step after_ed c = if within 0x80 0x9F c then some last else none
utf8_step after_f0 c = if within 0x90 0xBF c then some two else none
utf8_step after_f4 c = if within 0x80 0x8F c then some two else none

utf8_from : Utf8 → Bytes → Bool
unfolding utf8_step
utf8_from start [] = true
utf8_from _ [] = false
utf8_from s (c ∷ cs) = elim (utf8_step s c) [ none ↦ false | some s' ↦ utf8_from s' cs ]

-- `std::str::from_utf8(bytes).is_ok()`
unfoldable pub is_utf8 : Bytes → Bool
unfolding utf8_from
is_utf8 bs = utf8_from start bs

-- every byte is an ASCII character
abbrev pub IsAscii : Bytes → Type 0
IsAscii [] = Unit {0}
IsAscii (c ∷ cs) = (c < 128) × IsAscii cs

pub is_utf8-IsAscii : (cs : Bytes) → IsAscii cs → is_utf8 cs ≡ true
unfolding is_utf8
is_utf8-IsAscii [] h = refl
is_utf8-IsAscii (c ∷ cs) (h, hs) = ground (arith, is_utf8-IsAscii cs hs)

pub IsAscii-append : (a b : Bytes) → IsAscii a → IsAscii b → IsAscii (a ++ b)
IsAscii-append [] b h k = k
IsAscii-append (c ∷ a) b (h, hs) k = (h, IsAscii-append a b hs k)
