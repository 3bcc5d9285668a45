-- ===== src/Config/Semantics/Sound.antt =====
-- When the AmneziaWG parameters of an interface are accepted.
use awgsocks.Base.{
  ℕ, zero, suc, ◌++◌, ◌≤◌, ◌<◌, ◌≡◌, ◌⊎◌, ◌↔◌, refl, arith, List, [], ◌∷◌, Option, none, some,
  codes, Option-cases, inl, inr, ok, All,
}
use awgsocks.Strings.{Text}
use awgsocks.Config.Scan.{Kv}
use awgsocks.Config.Semantics.{
  Header, Warning, SemanticsError, get, num, junk_error, junk_warnings, header_names, headers_of,
  overlap_with, overlap_error, header_warnings, header_cipher_nonce_size, prefix_names,
  prefix_error, protection_error, verdict, validate_interface_semantics,
}

-- Without junk packets nothing is asked; with them both bounds of their size are there, in order and not
-- both 0.
abbrev pub JunkIsSound : Option ℕ → Option ℕ → Option ℕ → Type 0
JunkIsSound none jmin jmax = Unit
JunkIsSound (some zero) jmin jmax = Unit
JunkIsSound (some (suc jc)) jmin jmax =
    (lo : ℕ) × (hi : ℕ) × (jmin ≡ some lo) × (jmax ≡ some hi) × (lo ≤ hi) × (0 < hi)

-- No number lies in both ranges, when neither is reversed.
abbrev pub IsDisjoint : Header → Header → Type 0
IsDisjoint a b = (a.hi < b.lo) ⊎ (b.hi < a.lo)

abbrev pub AllDisjoint : List Header → Type 0
AllDisjoint [] = Unit
AllDisjoint (a ∷ rest) = All (IsDisjoint a) rest × AllDisjoint rest

-- The number is there and not below the nonce's size.
abbrev pub IsLong : List Kv → Text → Type 0
IsLong es name = (n : ℕ) × (num name es ≡ some n) × (header_cipher_nonce_size ≤ n)

abbrev pub IsProtected : List Kv → Option Text → Type 0
IsProtected es none = Unit
IsProtected es (some v) = All (IsLong es) prefix_names

junk_error_iff :
    (jc jmin jmax : Option ℕ) → (junk_error jc jmin jmax ≡ none) ↔ JunkIsSound jc jmin jmax
unfolding junk_error
junk_error_iff none jmin jmax = (λ e. tt, λ h. refl)
junk_error_iff (some zero) jmin jmax = (λ e. tt, λ h. refl)
junk_error_iff (some (suc jc)) none jmax = ground arith
junk_error_iff (some (suc jc)) (some lo) none = ground arith
junk_error_iff (some (suc jc)) (some lo) (some hi) =
    (λ e. (lo, hi, refl, refl, ground arith, ground arith), λ h. ground arith)

overlap_with_iff :
    (a : Header) (bs : List Header) → (overlap_with a bs ≡ none) ↔ All (IsDisjoint a) bs
unfolding overlap_with
overlap_with_iff a [] = (λ e. tt, λ h. refl)
overlap_with_iff a (b ∷ bs) = ground (arith, overlap_with_iff a bs)

overlap_error_iff : (hs : List Header) → (overlap_error hs ≡ none) ↔ AllDisjoint hs
unfolding overlap_error
overlap_error_iff [] = (λ e. tt, λ h. refl)
overlap_error_iff (a ∷ rest) = ground (arith, overlap_with_iff a rest, overlap_error_iff rest)

prefix_error_iff :
    (names : List Text) (es : List Kv) → (prefix_error names es ≡ none) ↔ All (IsLong es) names
unfolding prefix_error
prefix_error_iff [] es = (λ e. tt, λ h. refl)
prefix_error_iff (name ∷ names) es = elim (Option-cases (num name es)) [
  | inl unset ↦ ground (arith, prefix_error_iff names es)
  | inr (n, set) ↦ (
    λ e. (
      (n, set, ground (arith, prefix_error_iff names es)),
      ground (arith, prefix_error_iff names es),
    ),
    λ h. ground (arith, prefix_error_iff names es),
  )
]

protection_error_iff :
    (es : List Kv)
    → (protection_error es ≡ none) ↔ IsProtected es (get (codes "headerprotectionkey") es)
unfolding protection_error
protection_error_iff es = elim (Option-cases (get (codes "headerprotectionkey") es)) [
  | inl unset ↦ ground (arith)
  | inr (v, set) ↦ ground (arith, prefix_error_iff prefix_names es)
]

-- Three checks in a row pass exactly when each of them does.
in_row {ℓ κ μ} :
    {P : Type ℓ} {Q : Type κ} {R : Type μ} (a b c : Option SemanticsError) (ws : List Warning)
    → (a ≡ none) ↔ P
    → (b ≡ none) ↔ Q
    → (c ≡ none) ↔ R
    → (verdict a b c ws ≡ ok ws) ↔ (P × Q × R)
unfolding verdict
in_row none none none ws p q r = (λ e. (p.0 refl, q.0 refl, r.0 refl), λ h. refl)
in_row none none (some e) ws p q r =
    (λ h. absurd (ground arith), λ h. absurd (ground (arith, r.1 h.2)))
in_row none (some e) c ws p q r =
    (λ h. absurd (ground arith), λ h. absurd (ground (arith, q.1 h.1)))
in_row (some e) b c ws p q r = (λ h. absurd (ground arith), λ h. absurd (ground (arith, p.1 h.0)))

-- The parameters are accepted, with the warnings that follow, exactly when all of these hold: if Jc is
-- positive, then Jmin and Jmax are numbers with Jmin at most Jmax and Jmax positive; the readable ranges of
-- H1 to H4 are disjoint; and if there is a HeaderProtectionKey, then each of S1 to S4 is at least 12.
pub semantics_iff :
    (es : List Kv)
    → (validate_interface_semantics es
        ≡ ok (
            junk_warnings (num (codes "jc") es) (num (codes "jmin") es) (num (codes "jmax") es)
            ++ header_warnings (headers_of header_names es)))
      ↔ (JunkIsSound (num (codes "jc") es) (num (codes "jmin") es) (num (codes "jmax") es)
          × AllDisjoint (headers_of header_names es)
          × IsProtected es (get (codes "headerprotectionkey") es))
unfolding validate_interface_semantics
semantics_iff es =
    in_row (junk_error (num (codes "jc") es) (num (codes "jmin") es) (num (codes "jmax") es))
      (overlap_error (headers_of header_names es)) (protection_error es)
      (junk_warnings (num (codes "jc") es) (num (codes "jmin") es) (num (codes "jmax") es)
        ++ header_warnings (headers_of header_names es))
      (junk_error_iff (num (codes "jc") es) (num (codes "jmin") es) (num (codes "jmax") es))
      (overlap_error_iff (headers_of header_names es)) (protection_error_iff es)
