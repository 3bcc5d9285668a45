-- ===== src/Logging/Logger/Order.antt =====
-- The names that are left when the first of the sorted ones are struck off.
use awgsocks.Base.{
  ℕ, suc, zero, ◌-◌, ◌≡◌, ◌⊎◌, ◌≤◌, refl, sym, ap, ◌∙◌, Bool, true, false, ◌||◌, List, [], ◌∷◌,
  ◌++◌, Bytes, length, take, drop, equal, equal_self, arith, if-case, if◌then◌else◌, Bool-cases,
  inl, inr, subst, All, All-append, length-drop, take-append-drop, All-imp, All-drop,
}
use awgsocks.Logging.Logger.{at_most, insert, sort}

abbrev pub member : Bytes → List Bytes → Bool
member x [] = false
member x (y ∷ ys) = member x ys || equal x y

-- The names of a list that are not in another.
abbrev pub other_than : List Bytes → List Bytes → List Bytes
other_than ds [] = []
other_than ds (x ∷ xs) = if member x ds then other_than ds xs else x ∷ other_than ds xs

pub other_than-cons :
    (d : Bytes) (ds xs : List Bytes)
    → other_than ds (other_than (d ∷ []) xs) ≡ other_than (d ∷ ds) xs
other_than-cons d ds [] = refl
other_than-cons d ds (x ∷ xs) = ground (arith, other_than-cons d ds xs)

pub other_than-nil : (xs : List Bytes) → other_than [] xs ≡ xs
other_than-nil [] = refl
other_than-nil (x ∷ xs) = rw (other_than-nil xs)

-- Sorting changes neither what is in the list nor how much of it is left without some names.
length-other_than-insert :
    (ds : List Bytes) (x : Bytes) (xs : List Bytes)
    → length (other_than ds (insert x xs)) ≡ length (other_than ds (x ∷ xs))
unfolding insert
length-other_than-insert ds x [] = refl
length-other_than-insert ds x (y ∷ ys) = ground (arith, length-other_than-insert ds x ys)

length-other_than-sort :
    (ds xs : List Bytes) → length (other_than ds (sort xs)) ≡ length (other_than ds xs)
unfolding sort
length-other_than-sort ds [] = refl
length-other_than-sort ds (x ∷ xs) =
    length-other_than-insert ds x (sort xs) ∙ ground (arith, length-other_than-sort ds xs)

All-insert-inv {ℓ} :
    (P : Bytes → Type ℓ) (x : Bytes) (xs : List Bytes) → All P (insert x xs) → P x × All P xs
unfolding insert
All-insert-inv P x [] h = (h.0, tt)
All-insert-inv P x (y ∷ ys) h = elim (Bool-cases (at_most x y)) [
  | inl e ↦
      let k = subst (λ (b : Bool). All P (if b then x ∷ (y ∷ ys) else y ∷ insert x ys)) e h in
      (k.0, k.1)
  | inr e ↦
      let k = subst (λ (b : Bool). All P (if b then x ∷ (y ∷ ys) else y ∷ insert x ys)) e h in
      let (px, rest) = All-insert-inv P x ys k.1 in (px, (k.0, rest))
]

All-insert {ℓ} :
    (P : Bytes → Type ℓ) (x : Bytes) (xs : List Bytes) → P x → All P xs → All P (insert x xs)
unfolding insert
All-insert P x [] p h = (p, tt)
All-insert P x (y ∷ ys) p h =
    if-case (All P) (at_most x y) _ _ (λ e. (p, h)) (λ e. (h.0, All-insert P x ys p h.1))

All-sort-inv {ℓ} : (P : Bytes → Type ℓ) (xs : List Bytes) → All P (sort xs) → All P xs
unfolding sort
All-sort-inv P [] h = tt
All-sort-inv P (x ∷ xs) h =
    let (p, rest) = All-insert-inv P x (sort xs) h in (p, All-sort-inv P xs rest)

at_most_total : (s t : Bytes) → at_most s t ≡ false → at_most t s ≡ true
unfolding at_most
at_most_total [] t h = cc h
at_most_total (c ∷ s) [] h = refl
at_most_total (c ∷ s) (d ∷ t) h = ground (arith, h, at_most_total s t)

at_most_trans : (s t u : Bytes) → at_most s t ≡ true → at_most t u ≡ true → at_most s u ≡ true
unfolding at_most
at_most_trans [] t u h k = refl
at_most_trans (c ∷ s) [] u h k = cc h
at_most_trans (c ∷ s) (d ∷ t) [] h k = cc k
at_most_trans (c ∷ s) (d ∷ t) (e ∷ u) h k = ground (arith, h, k, at_most_trans s t u)

abbrev IsSorted : List Bytes → Type 0
IsSorted [] = Unit
IsSorted (x ∷ xs) = All (λ y. at_most x y ≡ true) xs × IsSorted xs

insert-IsSorted : (x : Bytes) (xs : List Bytes) → IsSorted xs → IsSorted (insert x xs)
unfolding insert
insert-IsSorted x [] h = (tt, tt)
insert-IsSorted x (y ∷ ys) h =
    if-case IsSorted (at_most x y) _ _
      (λ e. (
        (
          e,
          All-imp (λ z. at_most y z ≡ true) (λ z. at_most x z ≡ true) ys
              (λ z k. at_most_trans x y z e k) h.0,
        ),
        h,
      ))
      (λ e. (
        All-insert (λ z. at_most y z ≡ true) x ys (at_most_total x y e) h.0,
        insert-IsSorted x ys h.1,
      ))

sort-IsSorted : (xs : List Bytes) → IsSorted (sort xs)
unfolding sort
sort-IsSorted [] = tt
sort-IsSorted (x ∷ xs) = insert-IsSorted x (sort xs) (sort-IsSorted xs)

-- The name comes behind all of these.
abbrev pub Behind : List Bytes → Bytes → Type 0
Behind ds x = All (λ d. at_most d x ≡ true) ds

Behind-cons :
    (d : Bytes) (ds xs : List Bytes)
    → All (λ x. at_most d x ≡ true) xs
    → All (Behind ds) xs
    → All (Behind (d ∷ ds)) xs
Behind-cons d ds [] h k = tt
Behind-cons d ds (x ∷ xs) h k = ((h.0, k.0), Behind-cons d ds xs h.1 k.1)

drop-Behind : (n : ℕ) (xs : List Bytes) → IsSorted xs → All (Behind (take n xs)) (drop n xs)
drop-Behind zero [] h = tt
drop-Behind zero (x ∷ xs) h = (tt, drop-Behind zero xs h.1)
drop-Behind (suc n) [] h = tt
drop-Behind (suc n) (x ∷ xs) h =
    Behind-cons x (take n xs) (drop n xs) (All-drop (λ y. at_most x y ≡ true) n xs h.0)
      (drop-Behind n xs h.1)

member_weaken :
    (d : Bytes) (ds xs : List Bytes)
    → All (λ x. member x ds ≡ true) xs
    → All (λ x. member x (d ∷ ds) ≡ true) xs
member_weaken d ds xs h =
    All-imp (λ x. member x ds ≡ true) (λ x. member x (d ∷ ds) ≡ true) xs (λ x e. rw e refl) h

member_self : (ds : List Bytes) → All (λ x. member x ds ≡ true) ds
member_self [] = tt
member_self (d ∷ ds) = (ground (arith, equal_self d), member_weaken d ds ds (member_self ds))

other_than-append :
    (ds xs ys : List Bytes)
    → All (λ x. member x ds ≡ true) xs
    → other_than ds (xs ++ ys) ≡ other_than ds ys
other_than-append ds [] ys h = refl
other_than-append ds (x ∷ xs) ys h = rw h.0 (other_than-append ds xs ys h.1)

length-other_than : (ds xs : List Bytes) → length (other_than ds xs) ≤ length xs
length-other_than ds [] = omega arith
length-other_than ds (x ∷ xs) = ground (arith, length-other_than ds xs)

length-sort : (xs : List Bytes) → length (sort xs) ≡ length xs
length-sort xs =
    sym (ap length (other_than-nil (sort xs)))
    ∙ length-other_than-sort [] xs
    ∙ ap length (other_than-nil xs)

-- Either struck off, or behind all that are.
abbrev SortedOut : List Bytes → Bytes → Type 0
SortedOut ds x = (member x ds ≡ true) ⊎ Behind ds x

other_than-Behind :
    (ds xs : List Bytes) → All (SortedOut ds) xs → All (Behind ds) (other_than ds xs)
other_than-Behind ds [] h = tt
other_than-Behind ds (x ∷ xs) h =
    if-case (All (Behind ds)) (member x ds) _ _ (λ e. other_than-Behind ds xs h.1)
      (λ e. (elim (h.0) [ inl k ↦ cc (e, k) | inr b ↦ b ], other_than-Behind ds xs h.1))

pub taken_newest :
    (m : ℕ) (names : List Bytes)
    → let ds = take m (sort names) in All (Behind ds) (other_than ds names)
taken_newest m names =
    let s = sort names in
    let ds = take m s in
    let first : All (SortedOut ds) ds =
      All-imp (λ x. member x ds ≡ true) (SortedOut ds) ds (λ x e. inl e) (member_self ds) in
    let last : All (SortedOut ds) (drop m s) =
      All-imp (Behind ds) (SortedOut ds) (drop m s) (λ x e. inr e)
        (drop-Behind m s (sort-IsSorted names)) in
    other_than-Behind ds names (
      All-sort-inv (SortedOut ds) names (
        subst (All (SortedOut ds)) (take-append-drop m s)
          (All-append (SortedOut ds) ds (drop m s) first last)))

pub taken_few :
    (m : ℕ) (names : List Bytes)
    → length (other_than (take m (sort names)) names) ≤ length names - m
taken_few m names =
    let s = sort names in
    let ds = take m s in
    omega (
      arith,
      sym (length-other_than-sort ds names),
      ap (λ l. length (other_than ds l)) (take-append-drop m s),
      ap length (other_than-append ds ds (drop m s) (member_self ds)),
      length-other_than ds (drop m s),
      length-drop m s,
      length-sort names,
    )
