-- ===== src/Search/OneEdit.antt =====
-- One edit at most, said without a table: the reference of `within_one_edit`
-- (backend/app/services/search_query.py).
use yarrow.Prelude.{
  ℕ, ◌+◌, ◌≤◌, ◌≡◌, refl, ap, sym, ◌∙◌, subst, subst₂, List, [], ◌∷◌, ◌++◌, length, arith,
}

-- Two texts that are equal but for one character inserted, deleted or replaced, or two neighbours
-- swapped, after a common beginning.
pub data OneEdit : List ℕ → List ℕ → Type 0 where
  same : (xs : List ℕ) → OneEdit xs xs
  inserted : (y : ℕ) (xs : List ℕ) → OneEdit xs (y ∷ xs)
  deleted : (x : ℕ) (xs : List ℕ) → OneEdit (x ∷ xs) xs
  replaced : (x y : ℕ) (xs : List ℕ) → OneEdit (x ∷ xs) (y ∷ xs)
  swapped : (x y : ℕ) (xs : List ℕ) → OneEdit (x ∷ y ∷ xs) (y ∷ x ∷ xs)
  later : {xs ys : List ℕ} (x : ℕ) → OneEdit xs ys → OneEdit (x ∷ xs) (x ∷ ys)

pub OneEdit-sym : {xs ys : List ℕ} → OneEdit xs ys → OneEdit ys xs
OneEdit-sym (same xs) = same xs
OneEdit-sym (inserted y xs) = deleted y xs
OneEdit-sym (deleted x xs) = inserted x xs
OneEdit-sym (replaced x y xs) = replaced y x xs
OneEdit-sym (swapped x y xs) = swapped y x xs
OneEdit-sym (later x e) = later x (OneEdit-sym e)

pub OneEdit-length : {xs ys : List ℕ} → OneEdit xs ys → length ys ≤ length xs + 1
OneEdit-length (same xs) = omega arith
OneEdit-length (inserted y xs) = omega arith
OneEdit-length (deleted x xs) = omega arith
OneEdit-length (replaced x y xs) = omega arith
OneEdit-length (swapped x y xs) = omega arith
OneEdit-length (later x e) = omega (arith, OneEdit-length e)

snoc : {xs ys : List ℕ} (z : ℕ) → OneEdit xs ys → OneEdit (xs ++ z ∷ []) (ys ++ z ∷ [])
snoc z (same xs) = same _
snoc z (inserted y xs) = inserted y _
snoc z (deleted x xs) = deleted x _
snoc z (replaced x y xs) = replaced x y _
snoc z (swapped x y xs) = swapped x y _
snoc z (later x e) = later x (snoc z e)

-- An edit after a common beginning.
prefixed : (ps : List ℕ) {xs ys : List ℕ} → OneEdit xs ys → OneEdit (ps ++ xs) (ps ++ ys)
prefixed [] e = e
prefixed (p ∷ ps) e = later p (prefixed ps e)

abbrev pub rev : List ℕ → List ℕ
rev [] = []
rev (x ∷ xs) = rev xs ++ x ∷ []

assoc : (xs ys zs : List ℕ) → (xs ++ ys) ++ zs ≡ xs ++ (ys ++ zs)
assoc [] ys zs = refl
assoc (x ∷ xs) ys zs = ap (λ r. x ∷ r) (assoc xs ys zs)

unit_right : (xs : List ℕ) → xs ++ [] ≡ xs
unit_right [] = refl
unit_right (x ∷ xs) = ap (λ r. x ∷ r) (unit_right xs)

pub rev-OneEdit : {xs ys : List ℕ} → OneEdit xs ys → OneEdit (rev xs) (rev ys)
rev-OneEdit (same xs) = same _
rev-OneEdit (inserted y xs) =
    subst (λ r. OneEdit r (rev xs ++ y ∷ [])) (unit_right (rev xs))
      (prefixed (rev xs) (inserted y []))
rev-OneEdit (deleted x xs) =
    subst (λ r. OneEdit (rev xs ++ x ∷ []) r) (unit_right (rev xs))
      (prefixed (rev xs) (deleted x []))
rev-OneEdit (replaced x y xs) = prefixed (rev xs) (replaced x y [])
rev-OneEdit (swapped x y xs) =
    subst₂ OneEdit (sym (assoc (rev xs) (y ∷ []) (x ∷ []))) (sym (assoc (rev xs) (x ∷ []) (y ∷ [])))
      (prefixed (rev xs) (swapped y x []))
rev-OneEdit (later x e) = snoc x (rev-OneEdit e)

rev-snoc : (xs : List ℕ) (x : ℕ) → rev (xs ++ x ∷ []) ≡ x ∷ rev xs
rev-snoc [] x = refl
rev-snoc (y ∷ xs) x = ap (λ r. r ++ y ∷ []) (rev-snoc xs x)

pub rev-rev : (xs : List ℕ) → rev (rev xs) ≡ xs
rev-rev [] = refl
rev-rev (x ∷ xs) = rev-snoc (rev xs) x ∙ ap (λ r. x ∷ r) (rev-rev xs)
