-- ===== src/Config/Semantics.antt =====
-- internal/config/tunnel.go: `validateInterfaceSemantics`.
pub mod Sound
use awgsocks.Base.{
  ℕ, Bool, true, false, not, ◌&&◌, ◌||◌, List, [], ◌∷◌, ◌++◌, Option, none, some, codes, leb, ltb,
  ◌==◌, length, if◌then◌else◌, Result, ok, err, equal,
}
use awgsocks.Strings.{Text}
use awgsocks.Config.Scan.{Kv}
use awgsocks.Config.Values.{RangeResult, range, no_range, parse_uint, parse_uint_range}

-- `get`: the value of the first line with the key, unless it is empty.
unfoldable pub get : Text → List Kv → Option Text
get key [] = none
get key (e ∷ es) =
    if equal e.key key then (if equal e.value [] then none else some e.value) else get key es

-- `num`.
unfoldable pub num : Text → List Kv → Option ℕ
num key es = elim (get key es) [ none ↦ none | some v ↦ parse_uint 64 v ]

-- `hdr`.
pub record Header : Type 0 where
  pub name : Text
  pub lo : ℕ
  pub hi : ℕ

pub data Warning : Type 0 where
  junk_without_count : Warning
  headers_missing : List Text → Warning

pub data SemanticsError : Type 0 where
  bounds_missing reversed_bounds zero_maximum : SemanticsError
  overlap : Header → Header → SemanticsError
  prefix_too_short : Text → SemanticsError

-- The checks on Jmin and Jmax while Jc is positive.
junk_bounds : Option ℕ → Option ℕ → Option SemanticsError
junk_bounds none jmax = some bounds_missing
junk_bounds (some lo) none = some bounds_missing
junk_bounds (some lo) (some hi) =
    if ltb hi lo then some reversed_bounds else if hi == 0 then some zero_maximum else none

unfoldable pub junk_error : Option ℕ → Option ℕ → Option ℕ → Option SemanticsError
unfolding junk_bounds
junk_error none jmin jmax = none
junk_error (some jc) jmin jmax = if ltb 0 jc then junk_bounds jmin jmax else none

abbrev is_some {ℓ} : {A : Type ℓ} → Option A → Bool
is_some none = false
is_some (some a) = true

abbrev is_zero : Option ℕ → Bool
is_zero none = true
is_zero (some n) = n == 0

unfoldable pub junk_warnings : Option ℕ → Option ℕ → Option ℕ → List Warning
junk_warnings jc jmin jmax =
    if (is_some jmin || is_some jmax) && is_zero jc then junk_without_count ∷ [] else []

abbrev pub header_names : List (Text × Text)
header_names =
    (codes "h1", codes "H1")
    ∷ (codes "h2", codes "H2")
    ∷ (codes "h3", codes "H3")
    ∷ (codes "h4", codes "H4")
    ∷ []

header_onto : Text → RangeResult → List Header → List Header
header_onto name (range lo hi) rest = record { name = name; lo = lo; hi = hi } ∷ rest
header_onto name (no_range e) rest = rest

-- The headers among the given keys whose range is readable.
unfoldable pub headers_of : List (Text × Text) → List Kv → List Header
unfolding header_onto
headers_of [] es = []
headers_of ((key, name) ∷ names) es =
    let rest = headers_of names es in
    elim (get key es) [ none ↦ rest | some v ↦ header_onto name (parse_uint_range 32 v) rest ]

abbrev pub overlaps : Header → Header → Bool
overlaps a b = leb a.lo b.hi && leb b.lo a.hi

-- The inner loop, and the outer one.
unfoldable pub overlap_with : Header → List Header → Option SemanticsError
overlap_with a [] = none
overlap_with a (b ∷ bs) = if overlaps a b then some (overlap a b) else overlap_with a bs

unfoldable pub overlap_error : List Header → Option SemanticsError
unfolding overlap_with
overlap_error [] = none
overlap_error (a ∷ rest) =
    let later = overlap_error rest in elim (overlap_with a rest) [ some e ↦ some e | none ↦ later ]

has_name : Text → List Header → Bool
has_name name [] = false
has_name name (h ∷ hs) = equal h.name name || has_name name hs

missing : List (Text × Text) → List Header → List Text
unfolding has_name
missing [] hs = []
missing ((key, name) ∷ names) hs =
    let rest = missing names hs in if has_name name hs then rest else name ∷ rest

unfoldable pub header_warnings : List Header → List Warning
unfolding missing
header_warnings hs =
    if ltb 0 (length hs) && ltb (length hs) 4
    then headers_missing (missing header_names hs) ∷ []
    else []

-- `headerCipherNonceSize`.
abbrev pub header_cipher_nonce_size : ℕ
header_cipher_nonce_size = 12

abbrev pub prefix_names : List Text
prefix_names = codes "s1" ∷ codes "s2" ∷ codes "s3" ∷ codes "s4" ∷ []

abbrev pub below_nonce : Option ℕ → Bool
below_nonce none = true
below_nonce (some n) = ltb n header_cipher_nonce_size

-- The loop over S1 to S4.
unfoldable pub prefix_error : List Text → List Kv → Option SemanticsError
prefix_error [] es = none
prefix_error (name ∷ names) es =
    let later = prefix_error names es in
    if below_nonce (num name es) then some (prefix_too_short name) else later

unfoldable pub protection_error : List Kv → Option SemanticsError
protection_error es = elim (get (codes "headerprotectionkey") es) [
  | none ↦ none
  | some v ↦ prefix_error prefix_names es
]

-- The three checks in the order of the code; the warnings are kept only if none fails.
unfoldable pub verdict :
    Option SemanticsError
    → Option SemanticsError
    → Option SemanticsError
    → List Warning
    → Result SemanticsError (List Warning)
verdict (some e) overlapping unprotected ws = err e
verdict none (some e) unprotected ws = err e
verdict none none (some e) ws = err e
verdict none none none ws = ok ws

unfoldable pub validate_interface_semantics : List Kv → Result SemanticsError (List Warning)
validate_interface_semantics es =
    let jc = num (codes "jc") es in
    let jmin = num (codes "jmin") es in
    let jmax = num (codes "jmax") es in
    let headers = headers_of header_names es in
    verdict (junk_error jc jmin jmax) (overlap_error headers) (protection_error es)
      (junk_warnings jc jmin jmax ++ header_warnings headers)
