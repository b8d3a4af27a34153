-- ===== src/TableEdits/Samples.antt =====
-- Two tables that may be merged, and the theorem applied to them.
use yarrow.Prelude.{ℕ, ◌≡◌, refl, false, none, some, [], ◌∷◌, All, length}
use yarrow.Status.{completed}
use yarrow.Tables.{
  boundary, RegionTable, Table, merge_two_tables, ordered_parts, is_consecutive, place_of,
  places_adjacent, adjacent, col_span,
}
use yarrow.TableEdits.Model.{Document, Db, merge_candidates, merge_pair, entry, entries, pairs}
use yarrow.TableEdits.Candidates.{merge_candidates-merge}

abbrev part : ℕ → ℕ → RegionTable
part id table_id = record {
  id = id;
  region_id = id;
  table_id = table_id;
  reading_order = 0;
  row_start = 0;
  row_end = 2;
  col_start = 0;
  col_end = 1;
}

abbrev table : ℕ → ℕ → Table
table id part_id = record {
  id = id;
  document_id = 9;
  row_count = 3;
  col_count = 2;
  is_stitched = false;
  title = none;
  parts = part part_id id ∷ [];
}

-- The first table ends page 1 and the second one starts page 2.
abbrev db : Db
db = record {
  document = some (record { status = completed; updated_at = 5 });
  session = record {
    tables = table 1 11 ∷ table 2 12 ∷ [];
    regions =
        record { id = 11; page_id = 21; reading_order = some 4 }
        ∷ record { id = 12; page_id = 22; reading_order = some 0 }
        ∷ [];
    pages =
        record { id = 21; page_number = some 1 } ∷ record { id = 22; page_number = some 2 } ∷ [];
  };
}

abbrev document : Document
document = record { status = completed; updated_at = 5 }

one_candidate : length (merge_candidates db.session 9) ≡ 1
unfolding merge_candidates entry entries pairs boundary ordered_parts is_consecutive place_of
    places_adjacent adjacent col_span
one_candidate = refl

merge_candidates-merge_example :
    All
      (λ pair.
        ((merge_pair 7 9 pair.0.table.id pair.1.table.id db).0.error ≡ none)
        × ((merge_pair 7 9 pair.0.table.id pair.1.table.id db).1.session.tables
            ≡ merge_two_tables pair.0.table pair.1.table db.session.tables))
      (merge_candidates db.session 9)
merge_candidates-merge_example = merge_candidates-merge 7 9 document db refl refl (refl, (refl, tt))
