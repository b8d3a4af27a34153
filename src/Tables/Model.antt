-- ===== src/Tables/Model.antt =====
-- The rows of tables and their parts, and the questions that are asked of them
-- (packages/yarrow-db/src/yarrow_db/models/table.py and
-- packages/yarrow-db/src/yarrow_db/utils/table_utils.py). Row, column and page numbers are natural
-- numbers, which the parser writes without gaps; of them only a page's number and a region's place
-- on its page can be null.
use yarrow.Prelude.{
  ℕ, ◌+◌, ◌-◌, String, Bool, false, ◌&&◌, Option, none, some, List, [], ◌∷◌, ltb, leb, ◌==◌,
  if◌then◌else◌, find_first, keep, min, max,
}
use yarrow.Prelude.Sorting.{sort_by}

infixl 5 ◌>>=◌
abbrev pub ◌>>=◌ : {A B : Type 0} → Option A → (A → Option B) → Option B
none >>= f = none
some a >>= f = f a

-- A part of a table: its share of one region of one page.
pub record RegionTable : Type 0 where
  pub id : ℕ
  pub region_id : ℕ
  pub table_id : ℕ
  pub reading_order : ℕ
  pub row_start : ℕ
  pub row_end : ℕ
  pub col_start : ℕ
  pub col_end : ℕ

-- A table with the parts that refer to it, in the order of their storage.
pub record Table : Type 0 where
  pub id : ℕ
  pub document_id : ℕ
  pub row_count : ℕ
  pub col_count : ℕ
  pub is_stitched : Bool
  pub title : Option String
  pub parts : List RegionTable

pub record Region : Type 0 where
  pub id : ℕ
  pub page_id : ℕ
  pub reading_order : Option ℕ

pub record Page : Type 0 where
  pub id : ℕ
  pub page_number : Option ℕ

pub record Session : Type 0 where
  pub tables : List Table
  pub regions : List Region
  pub pages : List Page

unfoldable pub row_span : RegionTable → ℕ
row_span part = (part.row_end + 1) - part.row_start

unfoldable pub col_span : RegionTable → ℕ
col_span part = (part.col_end + 1) - part.col_start

-- `ORDER BY reading_order, id`
abbrev pub before : RegionTable → RegionTable → Bool
before a b =
    if a.reading_order == b.reading_order
    then leb a.id b.id
    else ltb a.reading_order b.reading_order

unfoldable pub ordered_parts : Table → List RegionTable
ordered_parts table = sort_by before table.parts

abbrev pub region_of : Session → RegionTable → Option Region
region_of session part = find_first (λ (r : Region). r.id == part.region_id) session.regions

abbrev pub page_of : Session → Region → Option Page
page_of session region = find_first (λ (p : Page). p.id == region.page_id) session.pages

-- The places of a page's regions; SQL's `max` and `min` skip the null ones.
abbrev pub orders : List Region → List ℕ
orders [] = []
orders (region ∷ regions) = elim region.reading_order [
  | none ↦ orders regions
  | some order ↦ order ∷ orders regions
]

abbrev pub page_orders : Session → ℕ → List ℕ
page_orders session page_id = orders (keep (λ (r : Region). r.page_id == page_id) session.regions)

abbrev pub fold_orders : (ℕ → ℕ → ℕ) → List ℕ → Option ℕ
fold_orders pick [] = none
fold_orders pick (order ∷ rest) = elim (fold_orders pick rest) [
  | none ↦ some order
  | some best ↦ some (pick order best)
]

abbrev pub is_order : ℕ → Option ℕ → Bool
is_order order none = false
is_order order (some best) = order == best

-- The four numbers that the rule compares, none of them null.
pub record Place : Type 0 where
  pub order : ℕ
  pub page_id : ℕ
  pub page_number : ℕ

unfoldable pub place_of : Session → RegionTable → Option Place
place_of session part = do
  region ← region_of session part
  page ← page_of session region
  order ← region.reading_order
  page_number ← page.page_number
  some (record { order = order; page_id = region.page_id; page_number = page_number })

unfoldable pub adjacent : Session → Place → Place → Bool
adjacent session prev next =
    is_order prev.order (fold_orders max (page_orders session prev.page_id))
    && is_order next.order (fold_orders min (page_orders session next.page_id))
    && (prev.page_number + 1 == next.page_number)

unfoldable pub places_adjacent : Session → Option Place → Option Place → Bool
places_adjacent session (some prev) (some next) = adjacent session prev next
places_adjacent session _ _ = false

unfoldable pub is_consecutive : Session → RegionTable → RegionTable → Bool
is_consecutive session prev next =
    if prev.table_id == next.table_id
    then false
    else places_adjacent session (place_of session prev) (place_of session next)
      && (col_span prev == col_span next)
