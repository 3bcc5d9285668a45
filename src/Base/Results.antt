-- ===== src/Base/Results.antt =====
-- What a Go call with a value and an error returns.
use mathlib.Core.Path.{◌≡◌, refl, subst}
use mathlib.Core.Bool.{Bool, true, false}
use awgsocks.Base.Tests.{if◌then◌else◌}
use mathlib.Core.Logic.{◌⊎◌, inl, inr}

pub data Result {ℓ κ} (E : Type ℓ) (A : Type κ) : Type (ℓ ⊔ κ) where
  err : E → Result E A
  ok : A → Result E A

module _ {ℓ κ} {E : Type ℓ} {A : Type κ} where
  -- `if err != nil { return err }`.
  infixl 5 ◌>>=◌
  abbrev pub ◌>>=◌ {μ} : {B : Type μ} → Result E A → (A → Result E B) → Result E B
  r >>= next = elim r [ err why ↦ err why | ok value ↦ next value ]

  pub Result-cases : (r : Result E A) → ((a : A) × (r ≡ ok a)) ⊎ ((e : E) × (r ≡ err e))
  Result-cases (err e) = inr (e, refl)
  Result-cases (ok a) = inl (a, refl)

  -- Inversion of a successful bind.
  pub >>=-eq-ok {μ} :
      {B : Type μ} (r : Result E A) (next : A → Result E B) (b : B)
      → (r >>= next) ≡ ok b
      → (a : A) × (r ≡ ok a) × (next a ≡ ok b)
  >>=-eq-ok (err e) next b h = cc
  >>=-eq-ok (ok a) next b h = (a, refl, h)

module _ {ℓ κ μ} {E : Type ℓ} {A : Type κ} (P : A → Type μ) where
  -- What is returned, if anything is, satisfies the predicate.
  abbrev pub IfOk : Result E A → Type μ
  IfOk (err e) = Unit
  IfOk (ok a) = P a

  pub IfOk-eq : (r : Result E A) (a : A) → IfOk r → r ≡ ok a → P a
  IfOk-eq r a h e = subst IfOk e h

  pub IfOk-if :
      (b : Bool) (x y : Result E A)
      → (b ≡ true → IfOk x)
      → (b ≡ false → IfOk y)
      → IfOk (if b then x else y)
  IfOk-if true x y h k = h refl
  IfOk-if false x y h k = k refl

module _ {ℓ κ ξ μ ν} {E : Type ℓ} {A : Type κ} {B : Type ξ} (P : A → Type μ) (Q : B → Type ν) where
  pub IfOk->>= :
      (r : Result E A) (next : A → Result E B)
      → IfOk P r
      → ((a : A) → P a → IfOk Q (next a))
      → IfOk Q (r >>= next)
  IfOk->>= (err e) next h f = tt
  IfOk->>= (ok a) next h f = f a h
