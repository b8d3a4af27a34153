-- ===== src/Tables/Whole.antt =====
-- Merging and splitting all the tables of a document
-- (packages/yarrow-db/src/yarrow_db/utils/table_utils.py).
use yarrow.Prelude.{
  ℕ, ◌+◌, Bool, not, ◌&&◌, Option, none, some, List, [], ◌∷◌, ◌++◌, ltb, leb, ◌==◌, if◌then◌else◌,
  or_else, is_none, length, keep, any, find_first,
}
use yarrow.Prelude.Sorting.{sort_by}
use yarrow.Tables.Model.{
  RegionTable, Table, Session, ordered_parts, is_consecutive, region_of, ◌>>=◌,
}
use yarrow.Tables.Ops.{merge_two_tables, split_table, page_number}

abbrev pub last_of : RegionTable → List RegionTable → RegionTable
last_of part [] = part
last_of part (next ∷ parts) = last_of next parts

-- The first and the last part of a table, if it has any.
unfoldable pub boundary : List RegionTable → Option (RegionTable × RegionTable)
boundary [] = none
boundary (part ∷ parts) = some (part, last_of part parts)

abbrev pub find_table : ℕ → List Table → Option Table
find_table table_id = find_first (λ (t : Table). t.id == table_id)

-- A table with parts: the place of its first one, and its outer parts' ids.
pub record Interval : Type 0 where
  pub table_id : ℕ
  pub start_page : Option ℕ
  pub start_order : ℕ
  pub first_part_id : ℕ
  pub last_part_id : ℕ

-- `none` is an attribute of None, which raises.
unfoldable pub interval : Session → Table → RegionTable × RegionTable → Option Interval
interval session table ends = do
  region ← region_of session ends.0
  start_page ← page_number session ends.0
  some (record {
    table_id = table.id;
    start_page = start_page;
    start_order = or_else region.reading_order 0;
    first_part_id = ends.0.id;
    last_part_id = ends.1.id;
  })

unfoldable pub intervals : Session → List Table → Option (List Interval)
intervals session [] = some []
intervals session (table ∷ tables) = elim (boundary (ordered_parts table)) [
  | none ↦ intervals session tables
  | some ends ↦ do
    first ← interval session table ends
    rest ← intervals session tables
    some (first ∷ rest)
]

abbrev pub interval_le : Interval → Interval → Bool
interval_le a b =
    let x = or_else a.start_page 0 in
    let y = or_else b.start_page 0 in if x == y then leb a.start_order b.start_order else ltb x y

-- Sorting compares a page number with None, which raises, when some are null and others not.
unfoldable pub in_order : List Interval → Option (List Interval)
in_order items =
    if any (λ (i : Interval). is_none i.start_page) items
      && any (λ (i : Interval). not (is_none i.start_page)) items
    then none
    else some (sort_by interval_le items)

-- The part with this id as it is now.
abbrev pub find_part : ℕ → List Table → Option RegionTable
find_part id [] = none
find_part id (table ∷ tables) = elim (find_first (λ (p : RegionTable). p.id == id) table.parts) [
  | some part ↦ some part
  | none ↦ find_part id tables
]

abbrev pub merge_if_consecutive :
    Session → Option Table → Option Table → Option RegionTable → Option RegionTable → Session
merge_if_consecutive session (some table) (some next) (some last) (some first) =
    if is_consecutive session last first
    then record session { tables = merge_two_tables table next session.tables }
    else session
merge_if_consecutive session _ _ _ _ = session

unfoldable pub merge_neighbours : Interval → Interval → Session → Session
merge_neighbours item next session =
    merge_if_consecutive session (find_table item.table_id session.tables)
      (find_table next.table_id session.tables) (find_part item.last_part_id session.tables)
      (find_part next.first_part_id session.tables)

-- From the last pair of neighbours to the first.
unfoldable pub merge_down : List Interval → Session → Session
merge_down [] session = session
merge_down (item ∷ []) session = session
merge_down (item ∷ next ∷ items) session =
    merge_neighbours item next (merge_down (next ∷ items) session)

unfoldable pub merge_consecutive_tables : ℕ → Session → Option Session
merge_consecutive_tables document_id session = do
  items ← intervals session (keep (λ (t : Table). t.document_id == document_id) session.tables)
  sorted ← in_order items
  some (merge_down sorted session)

-- A table's row is replaced by those of the tables that it was split into.
abbrev pub replace_table : ℕ → List Table → List Table → List Table
replace_table id results [] = []
replace_table id results (t ∷ tables) =
    let rest = replace_table id results tables in if t.id == id then results ++ rest else t ∷ rest

-- `uuid4` gives the ids of the new tables, by the count of those before.
unfoldable pub split_each : (ℕ → ℕ) → ℕ → List Table → List Table → List Table × List Table
split_each uuid4 made [] tables = ([], tables)
split_each uuid4 made (table ∷ stitched) tables =
    let results = split_table (λ n. uuid4 (made + n)) table in
    let (others, after) =
      split_each uuid4 (made + length results) stitched (replace_table table.id results tables) in
    (results ++ others, after)

unfoldable pub split_consecutive_tables : (ℕ → ℕ) → ℕ → Session → List Table × Session
split_consecutive_tables uuid4 document_id session =
    let stitched =
      sort_by (λ (a b : Table). leb a.id b.id)
        (keep (λ (t : Table). t.document_id == document_id && t.is_stitched) session.tables) in
    let (results, after) = split_each uuid4 0 stitched session.tables in
    (results, record session { tables = after })
