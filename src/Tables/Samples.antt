-- ===== src/Tables/Samples.antt =====
-- Two tables on the first three pages, and the theorems applied to them.
use yarrow.Prelude.{
  ℕ, ◌+◌, ◌≡◌, refl, true, false, none, some, List, [], ◌∷◌, ◌++◌, arith, All, sum_of,
}
use yarrow.Tables.Model.{RegionTable, Table, Session, ordered_parts}
use yarrow.Tables.Ops.{merged, split_at_gaps, page_number}
use yarrow.Tables.Tiling.{Tiles, IsTiled}
use yarrow.Tables.Merging.{region_ids, merged-IsTiled}
use yarrow.Tables.Gaps.{split_at_gaps-IsTiled}
use yarrow.Tables.Whole.{merge_consecutive_tables, split_consecutive_tables}
use yarrow.Tables.Document.{
  rows_of, merge_consecutive_tables-IsTiled, split_consecutive_tables-IsTiled,
}

abbrev part : ℕ → ℕ → ℕ → ℕ → ℕ → RegionTable
part id table_id order first last = record {
  id = id;
  region_id = id + 20;
  table_id = table_id;
  reading_order = order;
  row_start = first;
  row_end = last;
  col_start = 0;
  col_end = 2;
}

-- Its parts are stored out of order.
abbrev invoice : Table
invoice = record {
  id = 1;
  document_id = 9;
  row_count = 5;
  col_count = 3;
  is_stitched = true;
  title = some "Invoice";
  parts = part 11 1 1 3 4 ∷ part 10 1 0 0 2 ∷ [];
}

abbrev totals : Table
totals = record {
  id = 2;
  document_id = 9;
  row_count = 2;
  col_count = 3;
  is_stitched = false;
  title = none;
  parts = part 12 2 0 0 1 ∷ [];
}

abbrev session : Session
session = record {
  tables = invoice ∷ totals ∷ [];
  regions =
      record { id = 30; page_id = 40; reading_order = some 3 }
      ∷ record { id = 31; page_id = 42; reading_order = some 0 }
      ∷ [];
  pages = record { id = 40; page_number = some 1 } ∷ record { id = 42; page_number = some 3 } ∷ [];
}

invoice-IsTiled : IsTiled invoice
unfolding IsTiled Tiles ordered_parts
invoice-IsTiled = (refl, refl, refl, omega arith, (refl, refl, refl, omega arith, refl))

totals-IsTiled : IsTiled totals
unfolding IsTiled Tiles ordered_parts
totals-IsTiled = (refl, refl, refl, omega arith, refl)

merged-IsTiled_example :
    IsTiled (merged invoice totals)
    × (region_ids (ordered_parts (merged invoice totals))
        ≡ region_ids (ordered_parts invoice) ++ region_ids (ordered_parts totals))
merged-IsTiled_example = merged-IsTiled invoice totals invoice-IsTiled totals-IsTiled

first_page : page_number session (part 10 1 0 0 2) ≡ some (some 1)
unfolding page_number
first_page = refl

third_page : page_number session (part 11 1 1 3 4) ≡ some (some 3)
unfolding page_number
third_page = refl

split_at_gaps-IsTiled_example :
    (ts : List Table) × (split_at_gaps (λ n. n + 50) session invoice ≡ some ts)
    × All IsTiled ts
    × (sum_of (λ (t : Table). t.row_count) ts ≡ 5)
split_at_gaps-IsTiled_example =
    split_at_gaps-IsTiled (λ n. n + 50) session invoice invoice-IsTiled
      ((3, third_page), ((1, first_page), tt))

-- With the place of the second table, which starts the page after the first one ends.
abbrev placed : Session
placed = record session {
  regions = record { id = 32; page_id = 43; reading_order = some 0 } ∷ session.regions;
  pages = record { id = 43; page_number = some 4 } ∷ session.pages;
}

on_first : page_number placed (part 10 1 0 0 2) ≡ some (some 1)
unfolding page_number
on_first = refl

on_third : page_number placed (part 11 1 1 3 4) ≡ some (some 3)
unfolding page_number
on_third = refl

on_fourth : page_number placed (part 12 2 0 0 1) ≡ some (some 4)
unfolding page_number
on_fourth = refl

merge_consecutive_tables-IsTiled_example :
    (after : Session) × (merge_consecutive_tables 9 placed ≡ some after) × All IsTiled after.tables
merge_consecutive_tables-IsTiled_example =
    merge_consecutive_tables-IsTiled 9 placed (invoice-IsTiled, (totals-IsTiled, tt))
      (((3, on_third), ((1, on_first), tt)), (((4, on_fourth), tt), tt))

split_consecutive_tables-IsTiled_example :
    All IsTiled (split_consecutive_tables (λ n. n + 50) 9 session).0
    × All IsTiled (split_consecutive_tables (λ n. n + 50) 9 session).1.tables
    × (rows_of (split_consecutive_tables (λ n. n + 50) 9 session).0 ≡ 5)
split_consecutive_tables-IsTiled_example =
    split_consecutive_tables-IsTiled (λ n. n + 50) 9 session (invoice-IsTiled, (totals-IsTiled, tt))
