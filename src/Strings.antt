-- ===== src/Strings.antt =====
-- What the program uses of Go's strings package, on texts as lists of code points.
use awgsocks.Base.{
  ℕ, ◌+◌, Bool, true, false, ◌&&◌, ◌||◌, List, [], ◌∷◌, Option, none, some, Bytes, leb, ltb, ◌==◌,
  if◌then◌else◌,
}
use mathlib.Core.List.{reverse}

abbrev pub Text : Type 0
Text = Bytes

-- `first <= c && c <= last`.
abbrev pub in_range : ℕ → ℕ → ℕ → Bool
in_range first last c = leb first c && leb c last

-- `unicode.IsSpace`.
abbrev pub is_space : ℕ → Bool
is_space c =
    in_range 9 13 c
    || c == 32
    || c == 0x85
    || c == 0xA0
    || c == 0x1680
    || in_range 0x2000 0x200A c
    || c == 0x2028
    || c == 0x2029
    || c == 0x202F
    || c == 0x205F
    || c == 0x3000

-- `unicode.ToLower`; beyond ASCII it is a table, `lower_other`.
abbrev pub lower_rune : (ℕ → ℕ) → ℕ → ℕ
lower_rune lower_other c =
    if in_range b'A' b'Z' c then c + 32 else if ltb c 128 then c else lower_other c

-- `strings.ToLower`.
unfoldable pub to_lower : (ℕ → ℕ) → Text → Text
to_lower lower_other [] = []
to_lower lower_other (c ∷ s) = lower_rune lower_other c ∷ to_lower lower_other s

unfoldable pub trim_left : Text → Text
trim_left [] = []
trim_left (c ∷ s) = if is_space c then trim_left s else c ∷ s

-- `strings.TrimSpace`.
unfoldable pub trim_space : Text → Text
unfolding trim_left
trim_space s = reverse (trim_left (reverse (trim_left s)))

unfoldable pub has_prefix : Text → Text → Bool
has_prefix s [] = true
has_prefix [] (p ∷ ps) = false
has_prefix (c ∷ s) (p ∷ ps) = c == p && has_prefix s ps

-- `strings.Contains`.
unfoldable pub contains : Text → Text → Bool
unfolding has_prefix
contains [] p = has_prefix [] p
contains (c ∷ s) p = has_prefix (c ∷ s) p || contains s p

-- The text before the first `sep`, and the text behind it if there is one.
unfoldable pub cut : ℕ → Text → Text × Option Text
cut sep [] = ([], none)
cut sep (c ∷ s) =
    if c == sep then ([], some s) else (let (before, after) = cut sep s in (c ∷ before, after))

-- `strings.Split` at one code point.
split_onto : Text → ℕ → Text → List Text
split_onto word sep [] = reverse word ∷ []
split_onto word sep (c ∷ s) =
    let stop = reverse word ∷ split_onto [] sep s in
    let more = split_onto (c ∷ word) sep s in if c == sep then stop else more

unfoldable pub split : ℕ → Text → List Text
unfolding split_onto
split sep s = split_onto [] sep s
