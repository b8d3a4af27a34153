-- ===== src/Search/Edit.antt =====
-- `within_one_edit`: the table of the distances of prefixes
-- (backend/app/services/search_query.py). A text is the list of its characters' numbers.
use yarrow.Prelude.{
  ℕ, zero, suc, ◌+◌, ◌-◌, min, Bool, false, ◌&&◌, List, [], ◌∷◌, ltb, leb, ◌==◌, if◌then◌else◌,
  length,
}

-- `text[i]`; the loops stay within the text.
abbrev pub char_at : List ℕ → ℕ → ℕ
char_at [] i = 0
char_at (c ∷ text) zero = c
char_at (c ∷ text) (suc i) = char_at text i

abbrev pub Table : Type 0
Table = ℕ → ℕ → ℕ

abbrev pub store : ℕ → ℕ → ℕ → Table → Table
store i j value table = λ m n. if m == i && n == j then value else table m n

-- Zeros, but for the first column and the first row.
abbrev pub first_table : Table
first_table i j = if j == 0 then i else if i == 0 then j else 0

module _ (a b : List ℕ) where
  abbrev pub substitution : ℕ → ℕ → ℕ
  substitution i j = if char_at a i == char_at b j then 0 else 1

  abbrev pub transposed : ℕ → ℕ → Bool
  transposed i j =
      ltb 0 i && ltb 0 j && char_at a i == char_at b (j - 1) && char_at a (i - 1) == char_at b j

  -- What the body of the loops stores at `i + 1`, `j + 1`.
  unfoldable pub cell : Table → ℕ → ℕ → ℕ
  cell table i j =
      let best =
        min (min (table i (suc j) + 1) (table (suc i) j + 1)) (table i j + substitution i j) in
      if transposed i j then min best (table (i - 1) (j - 1) + 1) else best

  -- The first columns of a row, in turn.
  unfoldable pub fill_row : ℕ → ℕ → Table → Table
  fill_row i zero table = table
  fill_row i (suc j) table =
      let before = fill_row i j table in store (suc i) (suc j) (cell before i j) before

  unfoldable pub fill : ℕ → Table → Table
  fill zero table = table
  fill (suc i) table = fill_row i (length b) (fill i table)

  -- With `a` no longer than `b`.
  unfoldable pub within_ordered : Bool
  within_ordered =
      if ltb 1 (length b - length a)
      then false
      else leb (fill (length a) first_table (length a) (length b)) 1

unfoldable pub within_one_edit : List ℕ → List ℕ → Bool
within_one_edit a b = if ltb (length b) (length a) then within_ordered b a else within_ordered a b
