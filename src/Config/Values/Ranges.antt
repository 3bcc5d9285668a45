-- ===== src/Config/Values/Ranges.antt =====
-- What a parsed range is.
use awgsocks.Base.{ℕ, ◌≤◌, ◌<◌, ◌^◌, ◌≡◌, arith, List, [], ◌∷◌, some, Option-cases, inl, inr}
use awgsocks.Strings.{Text, trim_space, split}
use awgsocks.Config.Values.{range, parse_uint, parse_uint_range, range_of}

parse_uint-lt : (bits : ℕ) (s : Text) (n : ℕ) → parse_uint bits s ≡ some n → n < 2 ^ bits
unfolding parse_uint
parse_uint-lt bits s n e = ground arith

range_of-bounds :
    (bits : ℕ) (parts : List Text) (lo hi : ℕ)
    → range_of bits parts ≡ range lo hi
    → (lo ≤ hi) × (hi < 2 ^ bits)
unfolding range_of
range_of-bounds bits [] lo hi e = cc
range_of-bounds bits (a ∷ []) lo hi e = elim (Option-cases (parse_uint bits (trim_space a))) [
  | inl bad ↦ absurd (ground arith)
  | inr (n, read) ↦ ground (arith, parse_uint-lt bits (trim_space a) n read)
]
range_of-bounds bits (a ∷ b ∷ []) lo hi e = elim (Option-cases (parse_uint bits (trim_space a))) [
  | inl bad ↦ absurd (ground arith)
  | inr (n, read) ↦ elim (Option-cases (parse_uint bits (trim_space b))) [
    | inl bad ↦ absurd (ground arith)
    | inr (m, read') ↦ ground (arith, parse_uint-lt bits (trim_space b) m read')
  ]
]
range_of-bounds bits (a ∷ b ∷ c ∷ more) lo hi e = cc

-- A range that is accepted is not reversed and fits the width.
pub parse_uint_range-bounds :
    (bits : ℕ) (s : Text) (lo hi : ℕ)
    → parse_uint_range bits s ≡ range lo hi
    → (lo ≤ hi) × (hi < 2 ^ bits)
unfolding parse_uint_range
parse_uint_range-bounds bits s lo hi e = range_of-bounds bits (split b'-' (trim_space s)) lo hi e
