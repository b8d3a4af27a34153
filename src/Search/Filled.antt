-- ===== src/Search/Filled.antt =====
-- The loops fill the table with the distances of the prefixes (backend/app/services/search_query.py).
use yarrow.Prelude.{
  ℕ, zero, suc, ◌-◌, ◌≤◌, ◌≡◌, refl, ap, sym, ◌∙◌, true, false, ◌&&◌, List, [], ◌∷◌, ◌++◌, ltb,
  ◌==◌, length, arith, Bool-cases, inl, inr, ==_iff,
}
use yarrow.Search.Edit.{char_at, Table, store, first_table, transposed, cell, fill_row, fill}
use yarrow.Search.OneEdit.{rev}
use yarrow.Search.Distance.{distance}

-- The first characters of a text, from the last of them to the first.
abbrev pub before : List ℕ → ℕ → List ℕ
before a zero = []
before a (suc i) = char_at a i ∷ before a i

length-before : (a : List ℕ) (i : ℕ) → length (before a i) ≡ i
length-before a zero = refl
length-before a (suc i) = ap suc (length-before a i)

before-cons : (x : ℕ) (a : List ℕ) (i : ℕ) → before (x ∷ a) (suc i) ≡ before a i ++ x ∷ []
before-cons x a zero = refl
before-cons x a (suc i) = ap (λ r. char_at a i ∷ r) (before-cons x a i)

pub before-length : (a : List ℕ) → before a (length a) ≡ rev a
before-length [] = refl
before-length (x ∷ a) = before-cons x a (length a) ∙ ap (λ r. r ++ x ∷ []) (before-length a)

module _ (a b : List ℕ) where
  abbrev pub at : ℕ → ℕ → ℕ
  at i j = distance (before a i) (before b j)

  at_column : (i : ℕ) → at i 0 ≡ i
  unfolding distance
  at_column zero = refl
  at_column (suc i) = ap suc (length-before a i)

  at_row : (j : ℕ) → at 0 j ≡ j
  unfolding distance
  at_row j = length-before b j

  -- The body of the loops, over entries that are right.
  cell-at :
      (i j : ℕ) (table : Table)
      → table i (suc j) ≡ at i (suc j)
      → table (suc i) j ≡ at (suc i) j
      → table i j ≡ at i j
      → table (i - 1) (j - 1) ≡ at (i - 1) (j - 1)
      → cell a b table i j ≡ at (suc i) (suc j)
  unfolding cell distance
  cell-at zero j table up left diagonal corner = rw (up, left, diagonal) refl
  cell-at (suc i) zero table up left diagonal corner =
      let alone : transposed a b (suc i) zero ≡ false = ground arith in
      rw (alone, up, left, diagonal) refl
  cell-at (suc i) (suc j) table up left diagonal corner =
      let i_back : suc i - 1 ≡ i = omega arith in
      let j_back : suc j - 1 ≡ j = omega arith in
      let far : table i j ≡ at i j =
        ap (λ n. table n j) (sym i_back)
        ∙ ap (table (suc i - 1)) (sym j_back)
        ∙ corner
        ∙ ap (λ n. at n (suc j - 1)) i_back
        ∙ ap (at i) j_back in
      let test : transposed a b (suc i) (suc j)
          ≡ (char_at a (suc i) == char_at b j && char_at a i == char_at b (suc j)) =
        let i_some : ltb 0 (suc i) ≡ true = ground arith in
        let j_some : ltb 0 (suc j) ≡ true = ground arith in
        rw (i_back, j_back, i_some, j_some) refl in
      elim (Bool-cases (char_at a (suc i) == char_at b j && char_at a i == char_at b (suc j))) [
        | inl swap ↦ rw (test, swap, up, left, diagonal, i_back, j_back, far) refl
        | inr other ↦ rw (test, other, up, left, diagonal) refl
      ]

  -- What holds while a row is filled up to a column.
  record IsFilled (n k : ℕ) (table : Table) : Type 0 where
    above : (i j : ℕ) → i ≤ n → j ≤ length b → table i j ≡ at i j
    row : (j : ℕ) → j ≤ k → table (suc n) j ≡ at (suc n) j
    column : (i : ℕ) → table i 0 ≡ i

  store-other :
      (i j v m n : ℕ) (table : Table)
      → (m == i && n == j) ≡ false
      → store i j v table m n ≡ table m n
  store-other i j v m n table h = rw h refl

  store-here : (i j v m n : ℕ) (table : Table) → m ≡ i → n ≡ j → store i j v table m n ≡ v
  store-here i j v m n table h k =
      let here : (m == i && n == j) ≡ true = ground (arith, h, k) in rw here refl

  left_edge :
      (n : ℕ) (table : Table) (column : (i : ℕ) → table i 0 ≡ i) (j : ℕ)
      → j ≤ 0
      → table (suc n) j ≡ at (suc n) j
  left_edge n table column zero h = column (suc n) ∙ sym (at_column (suc n))
  left_edge n table column (suc j) h = absurd (omega (arith, h))

  stored :
      (i j : ℕ) (table : Table)
      → suc j ≤ length b
      → IsFilled i j table
      → IsFilled i (suc j) (store (suc i) (suc j) (cell a b table i j) table)
  stored i j table fits h = record {
    above = λ m n m_le n_le.
        store-other (suc i) (suc j) _ m n table (ground (arith, m_le)) ∙ h.above m n m_le n_le;
    column = λ m. store-other (suc i) (suc j) _ m 0 table (ground arith) ∙ h.column m;
    row = λ n n_le. elim (Bool-cases (n == suc j)) [
      | inl last ↦
          let n_is : n ≡ suc j = (==_iff n (suc j)).0 last in
          store-here (suc i) (suc j) _ (suc i) n table refl n_is
          ∙ cell-at i j table (h.above i (suc j) (omega arith) fits) (h.row j (omega arith))
              (h.above i j (omega arith) (omega arith))
              (h.above (i - 1) (j - 1) (omega arith) (omega arith))
          ∙ ap (at (suc i)) (sym n_is)
      | inr inner ↦
          store-other (suc i) (suc j) _ (suc i) n table (ground (arith, inner))
          ∙ h.row n (ground (arith, inner, n_le))
    ];
  }

  fill_row-IsFilled :
      (i k : ℕ) (table : Table)
      → k ≤ length b
      → IsFilled i 0 table
      → IsFilled i k (fill_row a b i k table)
  unfolding fill_row
  fill_row-IsFilled i zero table fits h = h
  fill_row-IsFilled i (suc k) table fits h =
      stored i k (fill_row a b i k table) fits (fill_row-IsFilled i k table (omega arith) h)

  next_row : (i : ℕ) (table : Table) → IsFilled i (length b) table → IsFilled (suc i) 0 table
  next_row i table h = record {
    above = λ m n m_le n_le. elim (Bool-cases (m == suc i)) [
      | inl last ↦
          let m_is : m ≡ suc i = (==_iff m (suc i)).0 last in
          ap (λ r. table r n) m_is ∙ h.row n n_le ∙ ap (λ r. at r n) (sym m_is)
      | inr upper ↦ h.above m n (ground (arith, upper, m_le)) n_le
    ];
    row = left_edge (suc i) table h.column;
    column = h.column;
  }

  first_filled : IsFilled 0 0 first_table
  first_filled = record {
    above = λ m n m_le n_le. first_row m n m_le;
    row = left_edge 0 first_table (λ i. refl);
    column = λ i. refl;
  }
    where
      first_row : (m n : ℕ) → m ≤ 0 → first_table m n ≡ at m n
      first_row zero zero h = sym (at_row 0)
      first_row zero (suc n) h =
          (let some_column : (suc n == 0) ≡ false = ground arith in rw some_column refl)
          ∙ sym (at_row (suc n))
      first_row (suc m) n h = absurd (omega (arith, h))

  fill-IsFilled : (i : ℕ) → IsFilled i 0 (fill a b i first_table)
  unfolding fill
  fill-IsFilled zero = first_filled
  fill-IsFilled (suc i) =
      next_row i _ (fill_row-IsFilled i (length b) _ (omega arith) (fill-IsFilled i))

  -- What the filled table holds in its last corner.
  pub fill-distance :
      fill a b (length a) first_table (length a) (length b) ≡ distance (rev a) (rev b)
  fill-distance =
      (fill-IsFilled (length a)).above (length a) (length b) (omega arith) (omega arith)
      ∙ ap (λ r. distance r (before b (length b))) (before-length a)
      ∙ ap (distance (rev a)) (before-length b)
