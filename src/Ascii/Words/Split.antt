-- ===== src/Ascii/Words/Split.antt =====
-- Words of ASCII characters, with one space between them, are what `split_whitespace` finds.
use red_couch.Base.{
  ℕ, ◌<◌, ◌≡◌, ◌≢◌, refl, ap, ◌∙◌, false, List, [], ◌∷◌, ◌++◌, Bytes, IsAscii, IsAscii-append,
  arith,
}
use red_couch.Ascii.Words.{join_char, chars, is_whitespace, segments, non_empty, split_whitespace}

-- a byte of a word
abbrev pub IsGraphic : Bytes → Type 0
IsGraphic [] = Unit {0}
IsGraphic (c ∷ cs) = ((32 < c) × (c < 128)) × IsGraphic cs

abbrev pub IsWord : Bytes → Type 0
IsWord w = (w ≢ []) × IsGraphic w

abbrev pub AreWords : List Bytes → Type 0
AreWords [] = Unit {0}
AreWords (w ∷ ws) = IsWord w × AreWords ws

-- words with one space between them
abbrev pub unwords : Bytes → List Bytes → Bytes
unwords w [] = w
unwords w (v ∷ vs) = w ++ (b' ' ∷ unwords v vs)

abbrev singletons : Bytes → List Bytes
singletons [] = []
singletons (c ∷ cs) = (c ∷ []) ∷ singletons cs

chars-IsAscii : (cs : Bytes) → IsAscii cs → chars cs ≡ singletons cs
unfolding chars
chars-IsAscii [] h = refl
chars-IsAscii (c ∷ []) h = refl
chars-IsAscii (c ∷ d ∷ cs) (h, (k, hs)) = rw (chars-IsAscii (d ∷ cs) (k, hs)) (apart k)
  where
    apart : d < 128 → join_char c (singletons (d ∷ cs)) ≡ singletons (c ∷ d ∷ cs)
    apart l = ground arith

graphic-whitespace : (c : ℕ) → 32 < c → is_whitespace (c ∷ []) ≡ false
unfolding is_whitespace
graphic-whitespace c h = ground arith

-- a word in front of a space
segments-space :
    (w cs : Bytes)
    → IsGraphic w
    → segments (singletons (w ++ (b' ' ∷ cs))) ≡ w ∷ segments (singletons cs)
unfolding segments is_whitespace
segments-space [] cs h = refl
segments-space (c ∷ w) cs ((lo, hi), h) = rw (graphic-whitespace c lo, segments-space w cs h) refl

-- the last word
segments-word : (w : Bytes) → IsGraphic w → segments (singletons w) ≡ w ∷ []
unfolding segments is_whitespace
segments-word [] h = refl
segments-word (c ∷ w) ((lo, hi), h) = rw (graphic-whitespace c lo, segments-word w h) refl

IsGraphic-IsAscii : (w : Bytes) → IsGraphic w → IsAscii w
IsGraphic-IsAscii [] h = tt
IsGraphic-IsAscii (c ∷ w) ((lo, hi), h) = (hi, IsGraphic-IsAscii w h)

pub unwords-IsAscii :
    (w : Bytes) (ws : List Bytes) → IsWord w → AreWords ws → IsAscii (unwords w ws)
unwords-IsAscii w [] (ne, h) hs = IsGraphic-IsAscii w h
unwords-IsAscii w (v ∷ vs) (ne, h) (k, hs) =
    IsAscii-append w _ (IsGraphic-IsAscii w h) (omega arith, unwords-IsAscii v vs k hs)

segments-unwords :
    (w : Bytes) (ws : List Bytes)
    → IsWord w
    → AreWords ws
    → segments (singletons (unwords w ws)) ≡ w ∷ ws
segments-unwords w [] (ne, h) hs = segments-word w h
segments-unwords w (v ∷ vs) (ne, h) (k, hs) =
    segments-space w (unwords v vs) h ∙ ap (◌∷◌ w) (segments-unwords v vs k hs)

non_empty-AreWords : (ws : List Bytes) → AreWords ws → non_empty ws ≡ ws
unfolding non_empty
non_empty-AreWords [] h = refl
non_empty-AreWords ([] ∷ ws) ((ne, g), hs) = absurd (ne refl)
non_empty-AreWords ((c ∷ w) ∷ ws) (h, hs) = ap (◌∷◌ (c ∷ w)) (non_empty-AreWords ws hs)

pub split_whitespace-unwords :
    (w : Bytes) (ws : List Bytes)
    → IsWord w
    → AreWords ws
    → split_whitespace (unwords w ws) ≡ w ∷ ws
unfolding split_whitespace
split_whitespace-unwords w ws h hs =
    rw (chars-IsAscii (unwords w ws) (unwords-IsAscii w ws h hs), segments-unwords w ws h hs)
      (non_empty-AreWords (w ∷ ws) (h, hs))
