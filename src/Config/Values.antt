-- ===== src/Config/Values.antt =====
-- internal/config/tunnel.go: `ParseUintRange`, `ParseAWGBool`, and what they use of strconv.
pub mod Ranges
use awgsocks.Base.{
  ℕ, zero, suc, ◌+◌, ◌*◌, ◌-◌, ◌^◌, Bool, true, false, not, ◌||◌, List, [], ◌∷◌, Option, none, some,
  codes, leb, ltb, ◌==◌, if◌then◌else◌, equal, ℤ, pos, negsuc,
}
use awgsocks.Strings.{Text, in_range, to_lower, trim_space, split}

-- The value of decimal digits behind those that make `n`.
unfoldable pub digits_onto : ℕ → Text → Option ℕ
digits_onto n [] = some n
digits_onto n (c ∷ s) =
    let rest = digits_onto (n * 10 + (c - b'0')) s in if in_range b'0' b'9' c then rest else none

abbrev pub decimal : Text → Option ℕ
decimal [] = none
decimal (c ∷ s) = digits_onto 0 (c ∷ s)

-- `strconv.ParseUint(s, 10, bits)`.
unfoldable pub parse_uint : ℕ → Text → Option ℕ
parse_uint bits s = elim (decimal s) [
  | none ↦ none
  | some n ↦ if ltb n (2 ^ bits) then some n else none
]

abbrev pub negate : ℕ → ℤ
negate zero = pos 0
negate (suc n) = negsuc n

-- `strconv.Atoi`, with an `int` of 64 bits.
unfoldable pub atoi : Text → Option ℤ
unfolding parse_uint
atoi [] = none
atoi (c ∷ s) =
    if c == b'-'
    then (elim (decimal s) [
      | none ↦ none
      | some n ↦ if leb n (2 ^ 63) then some (negate n) else none
    ])
    else (elim (parse_uint 63 (if c == b'+' then s else c ∷ s)) [
      | none ↦ none
      | some n ↦ some (pos n)
    ])

pub data RangeError : Type 0 where
  malformed bad_lower bad_upper reversed : RangeError

-- A range, or why there is none.
pub data RangeResult : Type 0 where
  range : ℕ → ℕ → RangeResult
  no_range : RangeError → RangeResult

ordered : ℕ → ℕ → RangeResult
ordered lo hi = if ltb hi lo then no_range reversed else range lo hi

range_of : ℕ → List Text → RangeResult
unfolding ordered
range_of bits [] = no_range malformed
range_of bits (a ∷ []) = elim (parse_uint bits (trim_space a)) [
  | none ↦ no_range bad_lower
  | some lo ↦ ordered lo lo
]
range_of bits (a ∷ b ∷ []) = elim (parse_uint bits (trim_space a)) [
  | none ↦ no_range bad_lower
  | some lo ↦ elim (parse_uint bits (trim_space b)) [
    | none ↦ no_range bad_upper
    | some hi ↦ ordered lo hi
  ]
]
range_of bits (a ∷ b ∷ c ∷ more) = no_range malformed

-- `ParseUintRange`.
unfoldable pub parse_uint_range : ℕ → Text → RangeResult
unfolding range_of
parse_uint_range bits s = range_of bits (split b'-' (trim_space s))

abbrev one_of : Text → List Text → Bool
one_of s [] = false
one_of s (t ∷ ts) = equal s t || one_of s ts

-- `ParseAWGBool`.
unfoldable pub parse_awg_bool : (ℕ → ℕ) → Text → Option Bool
parse_awg_bool lower_other s =
    let word = to_lower lower_other (trim_space s) in
    if one_of word (codes "on" ∷ codes "1" ∷ codes "true" ∷ codes "t" ∷ codes "yes" ∷ [])
    then some true
    else if one_of word (codes "off" ∷ codes "0" ∷ codes "false" ∷ codes "f" ∷ codes "no" ∷ [])
    then some false
    else none
