-- ===== src/Prelude/Sorting.antt =====
-- Stable insertion sort by a Boolean order: Python's `sorted` and SQL's `ORDER BY`.
use mathlib.Core.Path.{◌≡◌, refl, ap}
use mathlib.Core.Bool.{Bool, true, false}
use mathlib.Core.List.{List, [], ◌∷◌, ◌++◌, Perm}
use mathlib.Core.List.Perm
use mathlib.Core.Logic.{inl, inr}
use native.Mathlib.Omega.{arith}
use Prim.Native.Nat.{suc}
use yarrow.Prelude.Tests.{if◌then◌else◌, Bool-cases}
use yarrow.Prelude.Lists.{All, length}

module _ {ℓ} {A : Type ℓ} (le : A → A → Bool) where
  abbrev pub insert_by : A → List A → List A
  insert_by x [] = x ∷ []
  insert_by x (y ∷ ys) = if le x y then x ∷ y ∷ ys else y ∷ insert_by x ys

  -- Elements that are equal in the order keep their places.
  abbrev pub sort_by : List A → List A
  sort_by [] = []
  sort_by (x ∷ xs) = insert_by x (sort_by xs)

  -- Each element stands no later in the order than all that follow it.
  abbrev pub IsSorted : List A → Type ℓ
  IsSorted [] = Unit
  IsSorted (x ∷ xs) = All (λ y. le x y ≡ true) xs × IsSorted xs

  pub insert_by-Perm : (x : A) (ys : List A) → Perm (insert_by x ys) (x ∷ ys)
  insert_by-Perm x [] = Perm.refl (x ∷ [])
  insert_by-Perm x (y ∷ ys) = elim (Bool-cases (le x y)) [
    | inl first ↦ rw first (Perm.refl (x ∷ y ∷ ys))
    | inr later ↦ rw later (Perm.trans (Perm.cons y (insert_by-Perm x ys)) (Perm.swap x y ys))
  ]

  pub sort_by-Perm : (xs : List A) → Perm (sort_by xs) xs
  sort_by-Perm [] = Perm.refl []
  sort_by-Perm (x ∷ xs) = Perm.trans (insert_by-Perm x (sort_by xs)) (Perm.cons x (sort_by-Perm xs))

  pub length-insert_by : (x : A) (ys : List A) → length (insert_by x ys) ≡ suc (length ys)
  length-insert_by x [] = refl
  length-insert_by x (y ∷ ys) = ground (arith, length-insert_by x ys)

  pub length-sort_by : (xs : List A) → length (sort_by xs) ≡ length xs
  length-sort_by [] = refl
  length-sort_by (x ∷ xs) = ground (arith, length-insert_by x (sort_by xs), length-sort_by xs)

  module _ {κ} (P : A → Type κ) where
    pub All-insert_by : (x : A) (ys : List A) → P x → All P ys → All P (insert_by x ys)
    All-insert_by x [] p h = (p, tt)
    All-insert_by x (y ∷ ys) p h = elim (Bool-cases (le x y)) [
      | inl first ↦ rw first (p, h)
      | inr later ↦ rw later (h.0, All-insert_by x ys p h.1)
    ]

    pub All-sort_by : (xs : List A) → All P xs → All P (sort_by xs)
    All-sort_by [] h = tt
    All-sort_by (x ∷ xs) h = All-insert_by x (sort_by xs) h.0 (All-sort_by xs h.1)

    -- What holds of every sorted element holds of every element.
    pub All-uninsert : (x : A) (ys : List A) → All P (insert_by x ys) → P x × All P ys
    All-uninsert x [] h = h
    All-uninsert x (y ∷ ys) h = elim (Bool-cases (le x y)) [
      | inl first ↦ rw first at h
      | inr later ↦
          let (p, all) : P y × All P (insert_by x ys) = rw later at h in
          let (px, rest) = All-uninsert x ys all in (px, (p, rest))
    ]

    pub All-unsort : (xs : List A) → All P (sort_by xs) → All P xs
    All-unsort [] h = tt
    All-unsort (x ∷ xs) h = let (p, rest) = All-uninsert x (sort_by xs) h in (p, All-unsort xs rest)

  insert_by-front : (x : A) (ys : List A) → All (λ y. le x y ≡ true) ys → insert_by x ys ≡ x ∷ ys
  insert_by-front x [] h = refl
  insert_by-front x (y ∷ ys) h = rw h.0 refl

  pub sort_by-sorted : (xs : List A) → IsSorted xs → sort_by xs ≡ xs
  sort_by-sorted [] h = refl
  sort_by-sorted (x ∷ xs) h = rw (sort_by-sorted xs h.1) (insert_by-front x xs h.0)

  insert_by-append :
      (x : A) (xs ys : List A)
      → All (λ y. le x y ≡ true) ys
      → insert_by x (xs ++ ys) ≡ insert_by x xs ++ ys
  insert_by-append x [] ys h = insert_by-front x ys h
  insert_by-append x (z ∷ xs) ys h = elim (Bool-cases (le x z)) [
    | inl first ↦ rw first refl
    | inr later ↦ rw later (ap (λ zs. z ∷ zs) (insert_by-append x xs ys h))
  ]

  -- Sorted elements that stand after all others stay behind them.
  pub sort_by-append :
      (xs ys : List A)
      → All (λ x. All (λ y. le x y ≡ true) ys) xs
      → IsSorted ys
      → sort_by (xs ++ ys) ≡ sort_by xs ++ ys
  sort_by-append [] ys h sorted = sort_by-sorted ys sorted
  sort_by-append (x ∷ xs) ys h sorted =
      rw (sort_by-append xs ys h.1 sorted) (insert_by-append x (sort_by xs) ys h.0)

  module _ (le_trans : (x y z : A) → le x y ≡ true → le y z ≡ true → le x z ≡ true)
      (le_total : (x y : A) → le x y ≡ false → le y x ≡ true) where
    below-All :
        (x y : A) (ys : List A)
        → le x y ≡ true
        → All (λ z. le y z ≡ true) ys
        → All (λ z. le x z ≡ true) ys
    below-All x y [] p h = tt
    below-All x y (z ∷ zs) p h = (le_trans x y z p h.0, below-All x y zs p h.1)

    pub insert_by-IsSorted : (x : A) (ys : List A) → IsSorted ys → IsSorted (insert_by x ys)
    insert_by-IsSorted x [] h = (tt, tt)
    insert_by-IsSorted x (y ∷ ys) h = elim (Bool-cases (le x y)) [
      | inl first ↦ rw first ((first, below-All x y ys first h.0), h)
      | inr later ↦ rw later (
        All-insert_by (λ z. le y z ≡ true) x ys (le_total x y later) h.0,
        insert_by-IsSorted x ys h.1,
      )
    ]

    pub sort_by-IsSorted : (xs : List A) → IsSorted (sort_by xs)
    sort_by-IsSorted [] = tt
    sort_by-IsSorted (x ∷ xs) = insert_by-IsSorted x (sort_by xs) (sort_by-IsSorted xs)
