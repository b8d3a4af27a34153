-- ===== src/Prelude/Lists.antt =====
-- Lists measured by native numbers, under the library's names, with the tests and sums that the
-- program's comprehensions use.
use Prim.Native.Nat.{ℕ, zero, suc, ◌+◌, ◌≤◌}
use mathlib.Core.Path.{◌≡◌, refl, ap, sym, ◌∙◌, subst}
use mathlib.Core.Bool.{Bool, true, false, ◌&&◌, ◌||◌}
use mathlib.Core.List.{List, [], ◌∷◌, ◌++◌, map}
use mathlib.Core.Option.{Option, none, some}
use native.Mathlib.Omega.{arith}
use mathlib.Core.Logic.{inl, inr}
use yarrow.Prelude.Tests.{Bool-cases, ==_iff, ◌==◌, if◌then◌else◌}

module _ {ℓ} {A : Type ℓ} where
  abbrev pub length : List A → ℕ
  length [] = 0
  length (x ∷ xs) = suc (length xs)

  -- A predicate on every element, by recursion, so that the tactics read it.
  abbrev pub All {κ} : (A → Type κ) → List A → Type κ
  All P [] = Unit
  All P (x ∷ xs) = P x × All P xs

  pub All-imp {κ μ} :
      {P : A → Type κ} {Q : A → Type μ} (f : (x : A) → P x → Q x) (xs : List A)
      → All P xs
      → All Q xs
  All-imp f [] h = tt
  All-imp f (x ∷ xs) h = (f x h.0, All-imp f xs h.1)

  pub everywhere {κ} : {P : A → Type κ} (h : (x : A) → P x) (xs : List A) → All P xs
  everywhere h [] = tt
  everywhere h (x ∷ xs) = (h x, everywhere h xs)

  -- `[x for x in xs if test(x)]`
  abbrev pub keep : (A → Bool) → List A → List A
  keep p [] = []
  keep p (x ∷ xs) = if p x then x ∷ keep p xs else keep p xs

  abbrev pub any : (A → Bool) → List A → Bool
  any p [] = false
  any p (x ∷ xs) = p x || any p xs

  abbrev pub all : (A → Bool) → List A → Bool
  all p [] = true
  all p (x ∷ xs) = p x && all p xs

  -- `sum(f(x) for x in xs)`
  abbrev pub sum_of : (A → ℕ) → List A → ℕ
  sum_of f [] = 0
  sum_of f (x ∷ xs) = f x + sum_of f xs

  -- `sum(1 for x in xs if test(x))`
  abbrev pub count_of : (A → Bool) → List A → ℕ
  count_of p [] = 0
  count_of p (x ∷ xs) = if p x then suc (count_of p xs) else count_of p xs

  -- The first element that passes a test.
  abbrev pub find_first : (A → Bool) → List A → Option A
  find_first p [] = none
  find_first p (x ∷ xs) = if p x then some x else find_first p xs

  pub found_here :
      (p : A → Bool) (x a : A) (xs : List A) → p x ≡ true → find_first p (x ∷ xs) ≡ some a → x ≡ a
  found_here p x a xs passes found =
      let this : find_first p (x ∷ xs) ≡ some x = rw passes refl in cc (this, found)

  pub found_later :
      (p : A → Bool) (x a : A) (xs : List A)
      → p x ≡ false
      → find_first p (x ∷ xs) ≡ some a
      → find_first p xs ≡ some a
  found_later p x a xs fails found =
      let later : find_first p (x ∷ xs) ≡ find_first p xs = rw fails refl in cc (later, found)

  pub find_first-none : (p : A → Bool) (xs : List A) → find_first p xs ≡ none → any p xs ≡ false
  find_first-none p [] h = refl
  find_first-none p (x ∷ xs) h = elim (Bool-cases (p x)) [
    | inl passes ↦
        let found : find_first p (x ∷ xs) ≡ some x = rw passes refl in absurd (cc (found, h))
    | inr fails ↦
        let later : find_first p (x ∷ xs) ≡ find_first p xs = rw fails refl in
        rw fails (find_first-none p xs (sym later ∙ h))
  ]

  -- What is found passes the test, and a property of all elements holds of it.
  pub find_first-passes :
      (p : A → Bool) (a : A) (xs : List A) → find_first p xs ≡ some a → p a ≡ true
  find_first-passes p a [] found = absurd cc
  find_first-passes p a (x ∷ xs) found = elim (Bool-cases (p x)) [
    | inl passes ↦ ap p (sym (found_here p x a xs passes found)) ∙ passes
    | inr fails ↦ find_first-passes p a xs (found_later p x a xs fails found)
  ]

  pub find_first-All {κ} :
      (P : A → Type κ) (p : A → Bool) (a : A) (xs : List A)
      → All P xs
      → find_first p xs ≡ some a
      → P a
  find_first-All P p a [] h found = absurd cc
  find_first-All P p a (x ∷ xs) (one, h) found = elim (Bool-cases (p x)) [
    | inl passes ↦ subst P (found_here p x a xs passes found) one
    | inr fails ↦ find_first-All P p a xs h (found_later p x a xs fails found)
  ]

  abbrev pub take : ℕ → List A → List A
  take zero xs = []
  take (suc n) [] = []
  take (suc n) (x ∷ xs) = x ∷ take n xs

  pub keep_all : (p : A → Bool) (xs : List A) → All (λ x. p x ≡ true) xs → keep p xs ≡ xs
  keep_all p [] h = refl
  keep_all p (x ∷ xs) (one, h) = rw one (ap (λ rest. x ∷ rest) (keep_all p xs h))

  pub keep_same : (p q : A → Bool) (xs : List A) → All (λ x. p x ≡ q x) xs → keep p xs ≡ keep q xs
  keep_same p q [] h = refl
  keep_same p q (x ∷ xs) (one, h) = rw (one, keep_same p q xs h) refl

  pub keep-keep : (p q : A → Bool) (xs : List A) → keep q (keep p xs) ≡ keep (λ x. p x && q x) xs
  keep-keep p q [] = refl
  keep-keep p q (x ∷ xs) =
      let rest = keep-keep p q xs in
      elim (Bool-cases (p x)) [
        | inl passes ↦ rw passes (ground (arith, rest))
        | inr fails ↦ rw fails rest
      ]

  pub keep-All {κ} : (P : A → Type κ) (p : A → Bool) (xs : List A) → All P xs → All P (keep p xs)
  keep-All P p [] h = tt
  keep-All P p (x ∷ xs) (one, h) = elim (Bool-cases (p x)) [
    | inl passes ↦ rw passes (one, keep-All P p xs h)
    | inr fails ↦ rw fails (keep-All P p xs h)
  ]

  -- What is kept passes the test.
  pub keep-passes : (p : A → Bool) (xs : List A) → All (λ x. p x ≡ true) (keep p xs)
  keep-passes p [] = tt
  keep-passes p (x ∷ xs) = elim (Bool-cases (p x)) [
    | inl passes ↦ rw passes (passes, keep-passes p xs)
    | inr fails ↦ rw fails (keep-passes p xs)
  ]

  pub length-append : (xs ys : List A) → length (xs ++ ys) ≡ length xs + length ys
  length-append [] ys = omega arith
  length-append (x ∷ xs) ys = omega (arith, length-append xs ys)

  pub count_of-le : (p : A → Bool) (xs : List A) → count_of p xs ≤ length xs
  count_of-le p [] = omega arith
  count_of-le p (x ∷ xs) = ground (arith, count_of-le p xs)

  pub length-keep : (p : A → Bool) (xs : List A) → length (keep p xs) ≡ count_of p xs
  length-keep p [] = refl
  length-keep p (x ∷ xs) = ground (arith, length-keep p xs)

abbrev pub elem : ℕ → List ℕ → Bool
elem n [] = false
elem n (x ∷ xs) = n == x || elem n xs

pub elem-keep : (n : ℕ) (p : ℕ → Bool) (xs : List ℕ) → elem n (keep p xs) ≡ (elem n xs && p n)
elem-keep n p [] = refl
elem-keep n p (x ∷ xs) = elim (Bool-cases (n == x)) [
  | inl same ↦ ground (arith, elem-keep n p xs, ap p ((==_iff n x).0 same))
  | inr differs ↦ ground (arith, elem-keep n p xs)
]

-- `list(range(first, first + count))`
abbrev pub range_from : ℕ → ℕ → List ℕ
range_from first zero = []
range_from first (suc count) = first ∷ range_from (suc first) count

pub length-range_from : (first count : ℕ) → length (range_from first count) ≡ count
length-range_from first zero = refl
length-range_from first (suc count) = ap suc (length-range_from (suc first) count)

pub length-map {ℓ κ} :
    {A : Type ℓ} {B : Type κ} (f : A → B) (xs : List A) → length (map f xs) ≡ length xs
length-map f [] = refl
length-map f (x ∷ xs) = ap suc (length-map f xs)

pub All-map {ℓ κ μ} :
    {A : Type ℓ} {B : Type κ} (P : B → Type μ) (f : A → B) (xs : List A)
    → All (λ x. P (f x)) xs
    → All P (map f xs)
All-map P f [] h = tt
All-map P f (x ∷ xs) (one, h) = (one, All-map P f xs h)
