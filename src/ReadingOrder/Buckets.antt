-- ===== src/ReadingOrder/Buckets.antt =====
-- Sharing a list out by a number and joining it again loses and doubles nothing: what the columns
-- and bands of worker/app/pipeline/reading_order.py rest on.
use mathlib.Core.List.{Perm}
use mathlib.Core.List.Perm
use mathlib.Core.List.{perm_middle}
use yarrow.Prelude.{
  ℕ, suc, zero, ◌+◌, ◌≤◌, ◌<◌, ◌≡◌, refl, ap, Bool, not, List, [], ◌∷◌, ◌++◌, map, ◌==◌, keep,
  range_from, arith, Bool-cases, inl, inr, All, ==_iff,
}
use yarrow.ReadingOrder.Order.{concat}

module _ {ℓ} {A : Type ℓ} where
  pub keep-Perm : (p : A → Bool) (xs : List A) → Perm (keep p xs ++ keep (λ x. not (p x)) xs) xs
  keep-Perm p [] = Perm.refl []
  keep-Perm p (x ∷ xs) =
      let rest = keep-Perm p xs in
      elim (Bool-cases (p x)) [
        | inl kept ↦ rw kept (Perm.cons x rest)
        | inr dropped ↦ rw dropped (
            Perm.trans (perm_middle {a = x} (keep p xs) (keep (λ y. not (p y)) xs))
              (Perm.cons x rest))
      ]

  module _ (number : A → ℕ) where
    -- The elements with each of the numbers from `first` on.
    abbrev pub bucket : List A → ℕ → List A
    bucket xs k = keep (λ x. number x == k) xs

    abbrev pub buckets : ℕ → ℕ → List A → List A
    buckets first zero xs = []
    buckets first (suc n) xs = bucket xs first ++ buckets (suc first) n xs

    below :
        (first n : ℕ) (x : A) (xs : List A)
        → number x < first
        → buckets first n (x ∷ xs) ≡ buckets first n xs
    below first zero x xs h = refl
    below first (suc n) x xs h =
        let rest = below (suc first) n x xs (omega arith) in
        elim (Bool-cases (number x == first)) [
          | inl same ↦ absurd (omega (arith, (==_iff (number x) first).0 same))
          | inr other ↦ rw other (ap (λ ys. bucket xs first ++ ys) rest)
        ]

    one_more :
        (first n : ℕ) (x : A) (xs : List A)
        → first ≤ number x
        → number x < first + n
        → Perm (buckets first n (x ∷ xs)) (x ∷ buckets first n xs)
    one_more first zero x xs low high = absurd (omega arith)
    one_more first (suc n) x xs low high = elim (Bool-cases (number x == first)) [
      | inl same ↦ rw same (
          rw (below (suc first) n x xs (omega (arith, (==_iff (number x) first).0 same)))
            (Perm.refl _))
      | inr other ↦ rw other (
          Perm.trans
            (Perm.append_left (bucket xs first)
              (one_more (suc first) n x xs (ground arith) (omega arith)))
            (perm_middle {a = x} (bucket xs first) (buckets (suc first) n xs)))
    ]

    -- Every element lands in one bucket when its number is in range.
    pub buckets-Perm : (n : ℕ) (xs : List A) → All (λ x. number x < n) xs → Perm (buckets 0 n xs) xs
    buckets-Perm n [] h = none_left 0 n
      where
        none_left : (first n : ℕ) → Perm (buckets first n []) []
        none_left first zero = Perm.refl []
        none_left first (suc n) = none_left (suc first) n
    buckets-Perm n (x ∷ xs) (in_range, rest) =
        Perm.trans (one_more 0 n x xs (omega arith) (omega arith))
          (Perm.cons x (buckets-Perm n xs rest))

    -- The same with each bucket put in some order of its own.
    pub concat-Perm :
        (reorder : List A → List A)
        → ((ys : List A) → Perm (reorder ys) ys)
        → (first n : ℕ) (xs : List A)
        → Perm (concat (map (λ k. reorder (bucket xs k)) (range_from first n))) (buckets first n xs)
    concat-Perm reorder h first zero xs = Perm.refl []
    concat-Perm reorder h first (suc n) xs =
        Perm.append (h (bucket xs first)) (concat-Perm reorder h (suc first) n xs)
