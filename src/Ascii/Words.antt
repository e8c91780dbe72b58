-- ===== src/Ascii/Words.antt =====
-- What src/ascii.rs uses of the standard library's texts: the characters of a UTF-8 text,
-- `char::is_whitespace` (Unicode's White_Space), `split_whitespace` and `trim`.
pub mod Split
use red_couch.Base.{
  ℕ, Bool, false, ◌&&◌, ◌||◌, List, [], ◌∷◌, ◌++◌, Bytes, length, leb, ◌==◌, if◌then◌else◌,
}

-- is this byte one inside a character?
abbrev pub is_continuation : ℕ → Bool
is_continuation c = leb 0x80 c && leb c 0xBF

-- puts a byte in front of characters
unfoldable pub join_char : ℕ → List Bytes → List Bytes
join_char c [] = (c ∷ []) ∷ []
join_char c ([] ∷ chs) = (c ∷ []) ∷ chs
join_char c ((d ∷ ds) ∷ chs) =
    if is_continuation d then (c ∷ d ∷ ds) ∷ chs else (c ∷ []) ∷ (d ∷ ds) ∷ chs

-- `str::chars`, each character as its bytes
unfoldable pub chars : Bytes → List Bytes
unfolding join_char
chars [] = []
chars (c ∷ cs) = join_char c (chars cs)

-- `char::is_whitespace`
unfoldable pub is_whitespace : Bytes → Bool
is_whitespace (c ∷ []) = (leb 9 c && leb c 13) || c == 32
is_whitespace (c ∷ d ∷ []) = c == 0xC2 && (d == 0x85 || d == 0xA0)
is_whitespace (c ∷ d ∷ e ∷ []) =
    (c == 0xE1 && d == 0x9A && e == 0x80)
    || (c == 0xE2
        && d == 0x80
        && ((leb 0x80 e && leb e 0x8A) || e == 0xA8 || e == 0xA9 || e == 0xAF))
    || (c == 0xE2 && d == 0x81 && e == 0x9F)
    || (c == 0xE3 && d == 0x80 && e == 0x80)
is_whitespace _ = false

-- puts a character in front of the first segment
push_char : Bytes → List Bytes → List Bytes
push_char ch [] = ch ∷ []
push_char ch (w ∷ ws) = (ch ++ w) ∷ ws

-- the segments between the white space
unfoldable pub segments : List Bytes → List Bytes
unfolding push_char
segments [] = [] ∷ []
segments (ch ∷ chs) =
    let rest = segments chs in if is_whitespace ch then [] ∷ rest else push_char ch rest

unfoldable pub non_empty : List Bytes → List Bytes
non_empty [] = []
non_empty ([] ∷ ws) = non_empty ws
non_empty ((c ∷ w) ∷ ws) = (c ∷ w) ∷ non_empty ws

-- `str::split_whitespace`
unfoldable pub split_whitespace : Bytes → List Bytes
unfolding chars segments non_empty is_whitespace
split_whitespace text = non_empty (segments (chars text))

concat_chars : List Bytes → Bytes
concat_chars [] = []
concat_chars (ch ∷ chs) = ch ++ concat_chars chs

trim_start : List Bytes → List Bytes
trim_start [] = []
trim_start (ch ∷ chs) = let rest = trim_start chs in if is_whitespace ch then rest else ch ∷ chs

trim_end : List Bytes → List Bytes
trim_end [] = []
trim_end (ch ∷ chs) =
    let rest = trim_end chs in if length rest == 0 && is_whitespace ch then [] else ch ∷ rest

from_whitespace : List Bytes → List Bytes
from_whitespace [] = []
from_whitespace (ch ∷ chs) =
    let rest = from_whitespace chs in if is_whitespace ch then ch ∷ chs else rest

-- `text[text.find(char::is_whitespace).unwrap_or(text.len())..].trim()`
unfoldable pub after_first_whitespace : Bytes → Bytes
unfolding concat_chars trim_start trim_end from_whitespace
after_first_whitespace text = concat_chars (trim_end (trim_start (from_whitespace (chars text))))
