-- ===== src/Config/Validate/Distinct.antt =====
-- Lists of entries whose keys differ, as the loops of `validateScan` see them.
use awgsocks.Base.{◌≡◌, refl, arith, Bool, true, false, ◌||◌, List, [], ◌∷◌, equal, All, All-imp}
use awgsocks.Strings.{Text}
use awgsocks.Config.Scan.{Kv}
use awgsocks.Config.Params.{is_key}

-- No key stands there twice.
abbrev pub AreDistinct : List Kv → Type 0
AreDistinct [] = Unit
AreDistinct (e ∷ es) = All (λ e'. equal e.key e'.key ≡ false) es × AreDistinct es

or-false : (b c : Bool) → (b || c) ≡ false → (b ≡ false) × (c ≡ false)
or-false true c h = absurd (ground arith)
or-false false c h = (refl, h)

-- A list of entries, each of which has a property and a key that is not among those before.
module _ (P : Kv → Type 0) where
  abbrev pub IsGood : List Text → List Kv → Type 0
  IsGood seen [] = Unit
  IsGood seen (e ∷ es) = (P e × (is_key e.key seen ≡ false)) × IsGood (e.key ∷ seen) es

  pub IsGood-All : (seen : List Text) (es : List Kv) → IsGood seen es → All P es
  IsGood-All seen [] h = tt
  IsGood-All seen (e ∷ es) h = (h.0.0, IsGood-All (e.key ∷ seen) es h.1)

  IsGood-new :
      (seen : List Text) (es : List Kv) → IsGood seen es → All (λ e. is_key e.key seen ≡ false) es
  unfolding is_key
  IsGood-new seen [] h = tt
  IsGood-new seen (e ∷ es) h = (
    h.0.1,
    All-imp (λ e'. is_key e'.key (e.key ∷ seen) ≡ false) (λ e'. is_key e'.key seen ≡ false) es
        (λ e' new. (or-false (equal e.key e'.key) (is_key e'.key seen) new).1)
        (IsGood-new (e.key ∷ seen) es h.1),
  )

  pub IsGood-AreDistinct : (seen : List Text) (es : List Kv) → IsGood seen es → AreDistinct es
  unfolding is_key
  IsGood-AreDistinct seen [] h = tt
  IsGood-AreDistinct seen (e ∷ es) h = (
    All-imp (λ e'. is_key e'.key (e.key ∷ seen) ≡ false) (λ e'. equal e.key e'.key ≡ false) es
        (λ e' new. (or-false (equal e.key e'.key) (is_key e'.key seen) new).0)
        (IsGood-new (e.key ∷ seen) es h.1),
    IsGood-AreDistinct (e.key ∷ seen) es h.1,
  )

both-false : (b c : Bool) → b ≡ false → c ≡ false → (b || c) ≡ false
both-false true c h k = h
both-false false c h k = k

grown :
    (key : Text) (seen : List Text) (es : List Kv)
    → All (λ e. equal key e.key ≡ false) es
    → All (λ e. is_key e.key seen ≡ false) es
    → All (λ e. is_key e.key (key ∷ seen) ≡ false) es
unfolding is_key
grown key seen [] h k = tt
grown key seen (e ∷ es) h k =
    (both-false (equal key e.key) (is_key e.key seen) h.0 k.0, grown key seen es h.1 k.1)

pub nothing_seen : (es : List Kv) → All (λ e. is_key e.key [] ≡ false) es
unfolding is_key
nothing_seen [] = tt
nothing_seen (e ∷ es) = (refl, nothing_seen es)

pub distinct-IsGood :
    (P : Kv → Type 0) (seen : List Text) (es : List Kv)
    → All P es
    → AreDistinct es
    → All (λ e. is_key e.key seen ≡ false) es
    → IsGood P seen es
distinct-IsGood P seen [] h d new = tt
distinct-IsGood P seen (e ∷ es) h d new =
    ((h.0, new.0), distinct-IsGood P (e.key ∷ seen) es h.1 d.1 (grown e.key seen es d.0 new.1))
