-- ===== src/Prelude/Sort.antt =====
-- Insertion sort by a Boolean order, the model of slices.Sorted and slices.SortFunc.
use mathlib.Core.Bool.{Bool, true, false}
use mathlib.Core.List.{List, [], ◌∷◌}
use mathlib.Core.Logic.{◌⊎◌, inl, inr}
use mathlib.Core.Path.{◌≡◌}
use wireguard_operator.Prelude.Tests.{if◌then◌else◌, Bool-cases}
use wireguard_operator.Prelude.Lists.{In, All, All-map}

module _ {A : Type 0} (before : A → A → Bool) where
  unfoldable pub insert : A → List A → List A
  insert a [] = a ∷ []
  insert a (x ∷ xs) = let rest = insert a xs in if before x a then x ∷ rest else a ∷ x ∷ xs

  unfoldable pub sort : List A → List A
  unfolding insert
  sort [] = []
  sort (x ∷ xs) = insert x (sort xs)

  -- no later element comes before an earlier one
  abbrev pub Sorted : List A → Type 0
  Sorted [] = Unit
  Sorted (x ∷ xs) = All (λ y. before y x ≡ false) xs × Sorted xs

module _ {A : Type 0} (before : A → A → Bool) (b x : A) where
  In-insert : (xs : List A) → In b (insert before x xs) → (b ≡ x) ⊎ In b xs
  unfolding insert
  In-insert [] h = h
  In-insert (y ∷ ys) h = elim (Bool-cases (before y x)) [
    | inr here ↦ rw here at h
    | inl later ↦
        let split : (b ≡ y) ⊎ In b (insert before x ys) = rw later at h in
        elim split [
          | inl e ↦ inr (inl e)
          | inr rest ↦ elim (In-insert ys rest) [ inl e ↦ inl e | inr deep ↦ inr (inr deep) ]
        ]
  ]

  insert-In : (xs : List A) → ((b ≡ x) ⊎ In b xs) → In b (insert before x xs)
  unfolding insert
  insert-In [] h = h
  insert-In (y ∷ ys) h = elim (Bool-cases (before y x)) [
    | inr here ↦ rw here h
    | inl later ↦ rw later (elim h [
      | inl e ↦ inr (insert-In ys (inl e))
      | inr rest ↦ elim rest [ inl e ↦ inl e | inr deep ↦ inr (insert-In ys (inr deep)) ]
    ])
  ]

module _ {A : Type 0} (before : A → A → Bool) where
  -- Sorting keeps the elements, and adds none.
  pub In-sort : (b : A) (xs : List A) → In b (sort before xs) → In b xs
  unfolding sort
  In-sort b [] h = h
  In-sort b (x ∷ xs) h = elim (In-insert before b x (sort before xs) h) [
    | inl e ↦ inl e
    | inr rest ↦ inr (In-sort b xs rest)
  ]

  pub sort-In : (b : A) (xs : List A) → In b xs → In b (sort before xs)
  unfolding sort
  sort-In b [] h = h
  sort-In b (x ∷ xs) (inl e) = insert-In before b x (sort before xs) (inl e)
  sort-In b (x ∷ xs) (inr h) = insert-In before b x (sort before xs) (inr (sort-In b xs h))

module _ {κ} {A : Type 0} (before : A → A → Bool) (P : A → Type κ) where
  insert-All : (a : A) (xs : List A) → P a → All P xs → All P (insert before a xs)
  unfolding insert
  insert-All a [] pa h = (pa, tt)
  insert-All a (x ∷ xs) pa (px, h) = elim (Bool-cases (before x a)) [
    | inl later ↦ rw later (px, insert-All a xs pa h)
    | inr here ↦ rw here (pa, (px, h))
  ]

  pub sort-All : (xs : List A) → All P xs → All P (sort before xs)
  unfolding sort
  sort-All [] h = tt
  sort-All (x ∷ xs) (px, h) = insert-All x (sort before xs) px (sort-All xs h)

module _ {A : Type 0} (before : A → A → Bool)
    (irrefl : (a b : A) → before a b ≡ true → before b a ≡ false)
    (cotrans : (a b c : A) → before b a ≡ false → before c b ≡ false → before c a ≡ false) where
  insert-Sorted : (a : A) (xs : List A) → Sorted before xs → Sorted before (insert before a xs)
  unfolding insert
  insert-Sorted a [] h = (tt, tt)
  insert-Sorted a (x ∷ xs) (first, h) = elim (Bool-cases (before x a)) [
    | inl later ↦ rw later (
      insert-All before (λ y. before y x ≡ false) a xs (irrefl x a later) first,
      insert-Sorted a xs h,
    )
    | inr here ↦ rw here (
      (
        here,
        All-map (λ y. before y x ≡ false) (λ y. before y a ≡ false) (λ y k. cotrans a x y here k) xs
            first,
      ),
      (first, h),
    )
  ]

  pub sort-Sorted : (xs : List A) → Sorted before (sort before xs)
  unfolding sort
  sort-Sorted [] = tt
  sort-Sorted (x ∷ xs) = insert-Sorted x (sort before xs) (sort-Sorted xs)
