-- ===== src/Search/Distance.antt =====
-- The distance that the table holds, by recursion, and when it is at most one
-- (backend/app/services/search_query.py).
use yarrow.Prelude.{
  ℕ, suc, ◌+◌, ◌≤◌, min, leb, subst, subst₂, ◌≡◌, refl, sym, true, ◌&&◌, List, [], ◌∷◌, ◌==◌,
  if◌then◌else◌, length, arith, ==_iff, ==_refl, Bool-cases, inl, inr,
}
use yarrow.Search.OneEdit.{OneEdit, same, inserted, deleted, replaced, swapped, later}

abbrev pub cost : ℕ → ℕ → ℕ
cost x y = if x == y then 0 else 1

abbrev pub best_of : ℕ → ℕ → ℕ → ℕ
best_of up left diagonal = min (min (up + 1) (left + 1)) diagonal

-- The distance of two texts, given by their characters from the last to the first.
unfoldable pub distance : List ℕ → List ℕ → ℕ
distance [] ys = length ys
distance (x ∷ xs) [] = suc (length xs)
distance (x ∷ []) (y ∷ ys) =
    best_of (distance [] (y ∷ ys)) (distance (x ∷ []) ys) (distance [] ys + cost x y)
distance (x ∷ x2 ∷ xs) (y ∷ []) =
    best_of (distance (x2 ∷ xs) (y ∷ [])) (distance (x ∷ x2 ∷ xs) [])
      (distance (x2 ∷ xs) [] + cost x y)
distance (x ∷ x2 ∷ xs) (y ∷ y2 ∷ ys) =
    let further = distance xs ys in
    let best =
      best_of (distance (x2 ∷ xs) (y ∷ y2 ∷ ys)) (distance (x ∷ x2 ∷ xs) (y2 ∷ ys))
        (distance (x2 ∷ xs) (y2 ∷ ys) + cost x y) in
    if x == y2 && x2 == y then min best (further + 1) else best

distance-nil : (ys : List ℕ) → distance [] ys ≡ length ys
unfolding distance
distance-nil ys = refl

distance-end : (x : ℕ) (xs : List ℕ) → distance (x ∷ xs) [] ≡ suc (length xs)
unfolding distance
distance-end x xs = refl

-- What a nonempty pair's distance is at least one of, and at most each of.
abbrev diagonal_of : ℕ → ℕ → List ℕ → List ℕ → ℕ
diagonal_of x y xs ys = distance xs ys + cost x y

distance-at_most :
    (x y : ℕ) (xs ys : List ℕ)
    → (distance (x ∷ xs) (y ∷ ys) ≤ distance xs (y ∷ ys) + 1)
      × (distance (x ∷ xs) (y ∷ ys) ≤ distance (x ∷ xs) ys + 1)
      × (distance (x ∷ xs) (y ∷ ys) ≤ diagonal_of x y xs ys)
unfolding distance
distance-at_most x y [] ys = (omega arith, omega arith, omega arith)
distance-at_most x y (x2 ∷ xs) [] = (omega arith, omega arith, omega arith)
distance-at_most x y (x2 ∷ xs) (y2 ∷ ys) = elim (Bool-cases (x == y2 && x2 == y)) [
  | inl swap ↦ rw swap (omega arith, omega arith, omega arith)
  | inr other ↦ rw other (omega arith, omega arith, omega arith)
]

distance-same : (xs : List ℕ) → distance xs xs ≡ 0
distance-same [] = unfold distance in refl
distance-same (x ∷ xs) =
    let equal = ==_refl x in ground (arith, distance-same xs, (distance-at_most x x xs xs).2, equal)

-- The last edit that a distance counts.
data Last (x y : ℕ) : List ℕ → List ℕ → ℕ → Type 0 where
  deletion : {xs ys : List ℕ} {d : ℕ} → d ≡ distance xs (y ∷ ys) + 1 → Last x y xs ys d
  insertion : {xs ys : List ℕ} {d : ℕ} → d ≡ distance (x ∷ xs) ys + 1 → Last x y xs ys d
  substitution : {xs ys : List ℕ} {d : ℕ} → d ≡ diagonal_of x y xs ys → Last x y xs ys d
  transposition : {xs ys : List ℕ} {d : ℕ} → d ≡ distance xs ys + 1 → Last x y (y ∷ xs) (x ∷ ys) d

best_of-Last :
    (x y : ℕ) (xs ys : List ℕ)
    → Last x y xs ys (best_of (distance xs (y ∷ ys)) (distance (x ∷ xs) ys) (diagonal_of x y xs ys))
best_of-Last x y xs ys =
    let up = distance xs (y ∷ ys) in
    let left = distance (x ∷ xs) ys in
    let diagonal = diagonal_of x y xs ys in
    elim (Bool-cases (leb diagonal (min (up + 1) (left + 1)))) [
      | inl least ↦ substitution (ground (arith, least))
      | inr more ↦ elim (Bool-cases (leb up left)) [
        | inl up_least ↦ deletion (ground (arith, more, up_least))
        | inr left_least ↦ insertion (ground (arith, more, left_least))
      ]
    ]

distance-Last : (x y : ℕ) (xs ys : List ℕ) → Last x y xs ys (distance (x ∷ xs) (y ∷ ys))
unfolding distance
distance-Last x y [] ys = best_of-Last x y [] ys
distance-Last x y (x2 ∷ xs) [] = best_of-Last x y (x2 ∷ xs) []
distance-Last x y (x2 ∷ xs) (y2 ∷ ys) =
    let best =
      best_of (distance (x2 ∷ xs) (y ∷ y2 ∷ ys)) (distance (x ∷ x2 ∷ xs) (y2 ∷ ys))
        (diagonal_of x y (x2 ∷ xs) (y2 ∷ ys)) in
    elim (Bool-cases (x == y2 && x2 == y)) [
      | inr other ↦ rw other (best_of-Last x y (x2 ∷ xs) (y2 ∷ ys))
      | inl swap ↦ elim (Bool-cases (leb best (distance xs ys + 1))) [
        | inl least ↦
            let this : min best (distance xs ys + 1) ≡ best = ground (arith, least) in
            rw swap (
              subst (Last x y (x2 ∷ xs) (y2 ∷ ys)) (sym this)
                (best_of-Last x y (x2 ∷ xs) (y2 ∷ ys)))
        | inr more ↦
            let this : min best (distance xs ys + 1) ≡ distance xs ys + 1 = ground (arith, more) in
            let first : x2 ≡ y = ground (arith, swap) in
            let second : y2 ≡ x = ground (arith, swap) in
            rw swap (
              subst₂ (λ a b. Last x y (a ∷ xs) (b ∷ ys) (min best (distance xs ys + 1))) (sym first)
                (sym second) (transposition this))
      ]
    ]

zero_by :
    {d : ℕ} (x y : ℕ) (xs ys : List ℕ)
    → (distance xs ys ≡ 0 → xs ≡ ys)
    → Last x y xs ys d
    → d ≡ 0
    → x ∷ xs ≡ y ∷ ys
zero_by x y xs ys rest (deletion e) h = absurd (omega (arith, e, h))
zero_by x y xs ys rest (insertion e) h = absurd (omega (arith, e, h))
zero_by x y xs ys rest (substitution e) h = elim (Bool-cases (x == y)) [
  | inl equal ↦
      let tails = rest (ground (arith, e, h)) in
      let heads = (==_iff x y).0 equal in cc (tails, heads)
  | inr differs ↦ absurd (ground (arith, e, h, differs))
]
zero_by x y _ _ rest (transposition e) h = absurd (omega (arith, e, h))

distance-zero : (xs ys : List ℕ) → distance xs ys ≡ 0 → xs ≡ ys
distance-zero [] [] h = refl
distance-zero [] (y ∷ ys) h = absurd (omega (arith, h, distance-nil (y ∷ ys)))
distance-zero (x ∷ xs) [] h = absurd (omega (arith, h, distance-end x xs))
distance-zero (x ∷ xs) (y ∷ ys) h =
    zero_by x y xs ys (distance-zero xs ys) (distance-Last x y xs ys) h

-- At most one is one edit at most.
one_by :
    {d : ℕ} (x y : ℕ) (xs ys : List ℕ)
    → (distance xs ys ≤ 1 → OneEdit xs ys)
    → Last x y xs ys d
    → d ≤ 1
    → OneEdit (x ∷ xs) (y ∷ ys)
one_by x y xs ys rest (deletion e) h =
    let equal = distance-zero xs (y ∷ ys) (omega (arith, e, h)) in
    subst (λ r. OneEdit (x ∷ xs) r) equal (deleted x xs)
one_by x y xs ys rest (insertion e) h =
    let equal = distance-zero (x ∷ xs) ys (omega (arith, e, h)) in
    subst (λ r. OneEdit (x ∷ xs) (y ∷ r)) equal (inserted y (x ∷ xs))
one_by x y xs ys rest (substitution e) h = elim (Bool-cases (x == y)) [
  | inl equal ↦
      subst (λ c. OneEdit (x ∷ xs) (c ∷ ys)) ((==_iff x y).0 equal)
        (later x (rest (ground (arith, e, h))))
  | inr differs ↦
      let tails = distance-zero xs ys (ground (arith, e, h, differs)) in
      subst (λ r. OneEdit (x ∷ xs) (y ∷ r)) tails (replaced x y xs)
]
one_by x y _ _ rest (transposition {xs} {ys} e) h =
    let tails = distance-zero xs ys (omega (arith, e, h)) in
    subst (λ r. OneEdit (x ∷ y ∷ xs) (y ∷ x ∷ r)) tails (swapped x y xs)

pub distance-OneEdit : (xs ys : List ℕ) → distance xs ys ≤ 1 → OneEdit xs ys
distance-OneEdit [] [] h = same []
distance-OneEdit [] (y ∷ []) h = inserted y []
distance-OneEdit [] (y ∷ z ∷ ys) h = absurd (omega (arith, h, distance-nil (y ∷ z ∷ ys)))
distance-OneEdit (x ∷ []) [] h = deleted x []
distance-OneEdit (x ∷ z ∷ xs) [] h = absurd (omega (arith, h, distance-end x (z ∷ xs)))
distance-OneEdit (x ∷ xs) (y ∷ ys) h =
    one_by x y xs ys (distance-OneEdit xs ys) (distance-Last x y xs ys) h

swapped_at_most : (x y : ℕ) (xs : List ℕ) → distance (x ∷ y ∷ xs) (y ∷ x ∷ xs) ≤ 1
unfolding distance
swapped_at_most x y xs =
    let swap : (x == x && y == y) ≡ true = ground arith in rw swap (omega (arith, distance-same xs))

pub OneEdit-distance : {xs ys : List ℕ} → OneEdit xs ys → distance xs ys ≤ 1
OneEdit-distance (same xs) = omega (arith, distance-same xs)
OneEdit-distance (inserted y []) = omega (arith, distance-nil (y ∷ []))
OneEdit-distance (inserted y (x ∷ xs)) =
    omega (arith, distance-same (x ∷ xs), (distance-at_most x y xs (x ∷ xs)).1)
OneEdit-distance (deleted x []) = omega (arith, distance-end x [])
OneEdit-distance (deleted x (y ∷ xs)) =
    omega (arith, distance-same (y ∷ xs), (distance-at_most x y (y ∷ xs) xs).0)
OneEdit-distance (replaced x y xs) =
    ground (arith, distance-same xs, (distance-at_most x y xs xs).2)
OneEdit-distance (swapped x y xs) = swapped_at_most x y xs
OneEdit-distance (later {xs} {ys} x e) =
    let equal = ==_refl x in
    ground (arith, OneEdit-distance e, (distance-at_most x x xs ys).2, equal)
