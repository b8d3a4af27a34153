-- ===== src/Tables/Ops.antt =====
-- Merging, splitting and inserting (packages/yarrow-db/src/yarrow_db/utils/table_utils.py).
use yarrow.Prelude.{
  ℕ, ◌+◌, ◌-◌, Bool, true, false, not, ◌&&◌, Option, none, some, List, [], ◌∷◌, ◌++◌, map, ltb, leb,
  ◌==◌, if◌then◌else◌, keep, max, length, sum_of,
}
use yarrow.Tables.Model.{
  RegionTable, Table, Session, row_span, col_span, ordered_parts, region_of, page_of, ◌>>=◌,
}

-- The parts of the next table as parts of `table_id`, from a row and a place in the reading order on.
unfoldable pub move_parts : ℕ → ℕ → ℕ → List RegionTable → List RegionTable
move_parts table_id row_offset next_reading_order [] = []
move_parts table_id row_offset next_reading_order (part ∷ parts) =
    record part {
      table_id = table_id;
      reading_order = next_reading_order;
      row_start = part.row_start + row_offset;
      row_end = part.row_end + row_offset;
    }
    ∷ move_parts table_id row_offset (next_reading_order + 1) parts

unfoldable pub merged : Table → Table → Table
merged prev next = record prev {
  is_stitched = true;
  row_count = prev.row_count + next.row_count;
  col_count = max prev.col_count next.col_count;
  parts = prev.parts ++ move_parts prev.id prev.row_count (length prev.parts) (ordered_parts next);
}

abbrev pub delete_table : ℕ → List Table → List Table
delete_table id = keep (λ (t : Table). not (t.id == id))

abbrev pub store_table : Table → List Table → List Table
store_table table = map (λ t. if t.id == table.id then table else t)

unfoldable pub merge_two_tables : Table → Table → List Table → List Table
merge_two_tables prev next tables =
    if prev.id == next.id
    then tables
    else if length next.parts == 0
    then delete_table next.id tables
    else delete_table next.id (store_table (merged prev next) tables)

-- The table of one part alone, its rows counted from 0.
unfoldable pub single : ℕ → Table → Bool → RegionTable → Table
single id table first part = record {
  id = id;
  document_id = table.document_id;
  row_count = row_span part;
  col_count = col_span part;
  is_stitched = false;
  title = if first then table.title else none;
  parts =
      record part {
        table_id = id;
        reading_order = 0;
        row_end = part.row_end - part.row_start;
        row_start = 0;
      }
      ∷ [];
}

-- `uuid4` gives the ids of new rows, by their count.
unfoldable pub singles : (ℕ → ℕ) → ℕ → Table → List RegionTable → List Table
singles uuid4 index table [] = []
singles uuid4 index table (part ∷ parts) =
    single (uuid4 index) table (index == 0) part ∷ singles uuid4 (index + 1) table parts

unfoldable pub split_parts : (ℕ → ℕ) → Table → List RegionTable → List Table
split_parts uuid4 table [] = record table { is_stitched = false } ∷ []
split_parts uuid4 table (part ∷ []) =
    record table { is_stitched = false; row_count = row_span part; col_count = col_span part } ∷ []
split_parts uuid4 table (part ∷ other ∷ parts) = singles uuid4 0 table (part ∷ other ∷ parts)

-- The resulting tables, in reading order.
unfoldable pub split_table : (ℕ → ℕ) → Table → List Table
split_table uuid4 table = split_parts uuid4 table (ordered_parts table)

-- `part.region.page.page_number`: the outer `none` is an attribute of None, which raises.
unfoldable pub page_number : Session → RegionTable → Option (Option ℕ)
page_number session part = do
  region ← region_of session part
  page ← page_of session region
  some page.page_number

abbrev pub same_number : Option ℕ → ℕ → Bool
same_number none n = false
same_number (some m) n = m == n

-- Whether a part is on the page after its predecessor's; `none` is an error that is raised.
unfoldable pub follows : Session → RegionTable → RegionTable → Option Bool
follows session previous part = do
  number ← page_number session part
  before ← page_number session previous
  last ← before
  some (same_number number (last + 1))

abbrev pub onto_first : RegionTable → List (List RegionTable) → List (List RegionTable)
onto_first part [] = (part ∷ []) ∷ []
onto_first part (run ∷ runs) = (part ∷ run) ∷ runs

unfoldable pub page_runs :
    Session → RegionTable → List RegionTable → Option (List (List RegionTable))
page_runs session first [] = some ((first ∷ []) ∷ [])
page_runs session first (part ∷ parts) = do
  next ← follows session first part
  runs ← page_runs session part parts
  some (if next then onto_first first runs else (first ∷ []) ∷ runs)

-- A run's parts with row ranges that start at 0 and leave no holes.
unfoldable pub repack : ℕ → ℕ → ℕ → List RegionTable → List RegionTable
repack table_id reading_order row_offset [] = []
repack table_id reading_order row_offset (part ∷ parts) =
    record part {
      table_id = table_id;
      reading_order = reading_order;
      row_start = row_offset;
      row_end = (row_offset + row_span part) - 1;
    }
    ∷ repack table_id (reading_order + 1) (row_offset + row_span part) parts

abbrev pub widest : List RegionTable → ℕ
widest [] = 0
widest (part ∷ parts) = max (col_span part) (widest parts)

unfoldable pub run_table : Table → List RegionTable → Table
run_table table run = record table {
  row_count = sum_of row_span run;
  col_count = widest run;
  is_stitched = ltb 1 (length run);
  parts = repack table.id 0 0 run;
}

unfoldable pub run_tables : (ℕ → ℕ) → ℕ → Table → List (List RegionTable) → List Table
run_tables uuid4 index table [] = []
run_tables uuid4 index table (run ∷ runs) =
    run_table (if index == 0 then table else record table { id = uuid4 index; title = none }) run
    ∷ run_tables uuid4 (index + 1) table runs

unfoldable pub split_runs : (ℕ → ℕ) → Session → Table → List RegionTable → Option (List Table)
split_runs uuid4 session table [] = some []
split_runs uuid4 session table (first ∷ parts) = do
  runs ← page_runs session first parts
  some (run_tables uuid4 0 table runs)

-- The tables that are left of one table; none when it was deleted for having no part.
unfoldable pub split_at_gaps : (ℕ → ℕ) → Session → Table → Option (List Table)
split_at_gaps uuid4 session table = split_runs uuid4 session table (ordered_parts table)

-- `later` parts make room for the inserted rows.
abbrev pub make_room : ℕ → ℕ → RegionTable → RegionTable
make_room insertion_order inserted_rows part =
    if leb insertion_order part.reading_order
    then record part {
      reading_order = part.reading_order + 1;
      row_start = part.row_start + inserted_rows;
      row_end = part.row_end + inserted_rows;
    }
    else part

unfoldable pub inserted : Table → RegionTable → RegionTable → Table
inserted table part insert_after = record table {
  row_count = table.row_count + row_span part;
  is_stitched = true;
  parts =
      map (make_room (insert_after.reading_order + 1) (row_span part)) table.parts
      ++ record part {
        table_id = table.id;
        reading_order = insert_after.reading_order + 1;
        row_start = insert_after.row_end + 1;
        row_end = (insert_after.row_end + 1 + row_span part) - 1;
      }
        ∷ [];
}

abbrev pub without_part : ℕ → Table → Table
without_part id table = record table {
  parts = keep (λ (p : RegionTable). not (p.id == id)) table.parts;
}

abbrev pub is_empty : Table → Bool
is_empty table = length table.parts == 0

-- The table that a part came from loses it, and is deleted when it has no other.
unfoldable pub insert_region_table : Table → RegionTable → RegionTable → List Table → List Table
insert_region_table table part insert_after tables =
    if part.table_id == table.id
    then tables
    else keep (λ t. not ((t.id == part.table_id) && is_empty t))
        (map
          (λ t.
            if t.id == table.id
            then inserted table part insert_after
            else if t.id == part.table_id
            then without_part part.id t
            else t)
          tables)
