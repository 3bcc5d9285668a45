-- ===== src/Logging/Logger/Members.antt =====
-- The names that are left of a list, and those that are gone from it.
use awgsocks.Base.{
  ℕ, suc, zero, ◌+◌, ◌≡◌, ◌≤◌, refl, sym, ap, ◌∙◌, true, false, not, ◌||◌, ◌&&◌, List, [], ◌∷◌,
  Bytes, length, take, equal, equal_self, equal_iff, arith, if-case, subst, All, Bool-cases, inl,
  inr,
}
use awgsocks.Logging.Logger.{insert, sort}
use awgsocks.Logging.Logger.Order.{member, other_than, other_than-nil, other_than-cons}

-- No name comes twice, as in a directory.
abbrev pub IsDistinct : List Bytes → Type 0
IsDistinct [] = Unit
IsDistinct (x ∷ xs) = (member x xs ≡ false) × IsDistinct xs

member-equal : (x y : Bytes) (ds : List Bytes) → equal x y ≡ true → member x ds ≡ member y ds
member-equal x y ds e = ap (λ z. member z ds) ((equal_iff x y).0 e)

pub member-other_than :
    (x : Bytes) (ds xs : List Bytes)
    → member x (other_than ds xs) ≡ (not (member x ds) && member x xs)
member-other_than x ds [] = ground arith
member-other_than x ds (y ∷ xs) = ground (arith, member-other_than x ds xs, member-equal x y ds)

member-insert :
    (x y : Bytes) (xs : List Bytes) → member x (insert y xs) ≡ (member x xs || equal x y)
unfolding insert
member-insert x y [] = refl
member-insert x y (z ∷ xs) = ground (arith, member-insert x y xs)

member-sort : (x : Bytes) (xs : List Bytes) → member x (sort xs) ≡ member x xs
unfolding sort
member-sort x [] = refl
member-sort x (y ∷ xs) = member-insert x y (sort xs) ∙ ap (λ b. b || equal x y) (member-sort x xs)

member-take :
    (x : Bytes) (n : ℕ) (xs : List Bytes) → member x (take n xs) ≡ true → member x xs ≡ true
member-take x zero [] h = h
member-take x zero (y ∷ xs) h = cc h
member-take x (suc n) [] h = h
member-take x (suc n) (y ∷ xs) h = ground (arith, h, member-take x n xs)

pub member-take-sort :
    (x : Bytes) (n : ℕ) (xs : List Bytes) → member x (take n (sort xs)) ≡ true → member x xs ≡ true
member-take-sort x n xs h = sym (member-sort x xs) ∙ member-take x n (sort xs) h

pub All-member {ℓ} :
    (P : Bytes → Type ℓ) (x : Bytes) (xs : List Bytes) → All P xs → member x xs ≡ true → P x
All-member P x [] h e = cc e
All-member P x (y ∷ xs) h e = elim (Bool-cases (equal x y)) [
  | inl same ↦ subst P (sym ((equal_iff x y).0 same)) h.0
  | inr other ↦ All-member P x xs h.1 (ground (arith, e, other))
]

pub All-members {ℓ} :
    (P : Bytes → Type ℓ) (xs : List Bytes) → ((x : Bytes) → member x xs ≡ true → P x) → All P xs
All-members P [] f = tt
All-members P (x ∷ xs) f =
    (f x (ground (arith, equal_self x)), All-members P xs (λ y h. f y (ground (arith, h))))

other_than_absent :
    (d : Bytes) (xs : List Bytes) → member d xs ≡ false → other_than (d ∷ []) xs ≡ xs
other_than_absent d [] h = refl
other_than_absent d (x ∷ xs) h =
    ground (arith, h, other_than_absent d xs, equal_iff x d, equal_iff d x)

other_than-IsDistinct : (ds xs : List Bytes) → IsDistinct xs → IsDistinct (other_than ds xs)
other_than-IsDistinct ds [] h = tt
other_than-IsDistinct ds (x ∷ xs) h =
    if-case IsDistinct (member x ds) _ _ (λ e. other_than-IsDistinct ds xs h.1)
      (λ e. (ground (arith, h.0, member-other_than x ds xs), other_than-IsDistinct ds xs h.1))

length-other_than_one :
    (d : Bytes) (xs : List Bytes) → IsDistinct xs → length xs ≤ length (other_than (d ∷ []) xs) + 1
length-other_than_one d [] h = omega arith
length-other_than_one d (x ∷ xs) h = elim (Bool-cases (equal x d)) [
  | inl same ↦
      let absent : member d xs ≡ false = sym (member-equal x d xs same) ∙ h.0 in
      rw same (omega (arith, ap length (other_than_absent d xs absent)))
  | inr other ↦ rw other (omega (arith, length-other_than_one d xs h.1))
]

-- Of distinct names, no more are gone than were struck off.
pub length-other_than_least :
    (ds xs : List Bytes) → IsDistinct xs → length xs ≤ length ds + length (other_than ds xs)
length-other_than_least [] xs h = omega (arith, ap length (other_than-nil xs))
length-other_than_least (d ∷ ds) xs h = omega (
  arith,
  length-other_than_one d xs h,
  length-other_than_least ds (other_than (d ∷ []) xs) (other_than-IsDistinct (d ∷ []) xs h),
  ap length (other_than-cons d ds xs),
)
