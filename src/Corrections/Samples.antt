-- ===== src/Corrections/Samples.antt =====
-- Runs of the corrections at a concrete document, and the theorems applied to it.
use yarrow.Prelude.{
  ℕ, true, ◌⊎◌, String, ◌≡◌, refl, none, some, List, [], ◌∷◌, arith, inl, ◌==◌, if◌then◌else◌,
}
use yarrow.Status.{completed}
use yarrow.Corrections.{
  acquired, apply, RegionText, Session, paragraph, text_of, update_region_text,
  undo_region_correction,
}
use yarrow.Corrections.History.{
  IsEditable, HoldsText, pristine, run_updates, undo-run_updates, update_reads_back,
}
use yarrow.Corrections.Atomic.{other_rows_kept, unchanged_kept}

-- Document 1 with the region 7, and the text row `row` in it.
abbrev page_with : RegionText → Session
page_with row = record {
  documents = λ k. if k == 1 then some (record { status = completed; updated_at = 10 }) else none;
  regions =
      λ k. if k == 7 then some (record { document_id = some 1; region_type = paragraph }) else none;
  texts = λ k. if k == 7 then some row else none;
}

abbrev editable_page : (row : RegionText) → IsEditable 1 7 (page_with row)
editable_page row = record {
  document = record { status = completed; updated_at = 10 };
  region = record { document_id = some 1; region_type = paragraph };
  row = row;
  located = refl;
  completed = refl;
  placed = refl;
  home = refl;
  kind = refl;
  stored = refl;
}

abbrev holds_total : HoldsText 1 7 "Totai" (page_with (pristine "Totai"))
holds_total = record { editable = editable_page (pristine "Totai"); ocr = inl refl }

abbrev edits : List (ℕ × String)
edits = (20, "Total") ∷ (30, "Total") ∷ (40, "Sum") ∷ []

undo-run_updates_example :
    (undo_region_correction 50 1 7 (run_updates 1 7 edits (page_with (pristine "Totai")))).1.texts 7
    ≡ some (pristine "Totai")
undo-run_updates_example =
    undo-run_updates 1 7 "Totai" edits 50 (page_with (pristine "Totai")) holds_total

update_reads_back_example :
    let after = (update_region_text 20 1 7 "Total" (page_with (pristine "Totai"))).1 in
    ((row : RegionText) × (after.texts 7 ≡ some row) × (text_of row ≡ "Total"))
    × HoldsText 1 7 "Totai" after
update_reads_back_example =
    update_reads_back 1 7 "Totai" 20 "Total" (page_with (pristine "Totai")) holds_total

other_rows_kept_example :
    ((update_region_text 20 1 7 "Total" (page_with (pristine "Totai"))).1.texts 8 ≡ none)
    × ((undo_region_correction 20 1 7 (page_with (pristine "Totai"))).1.texts 8 ≡ none)
other_rows_kept_example =
    other_rows_kept 20 1 7 8 "Total" (page_with (pristine "Totai")) (omega arith)

unchanged_kept_example :
    let updated =
      apply acquired (update_region_text 20 1 7 "Total") (page_with (pristine "Totai")) in
    let undone = apply acquired (undo_region_correction 20 1 7) (page_with (pristine "Totai")) in
    (((updated.0.changed ≡ true) × (updated.0.error ≡ none))
      ⊎ (updated.1 ≡ page_with (pristine "Totai")))
    × (((undone.0.changed ≡ true) × (undone.0.error ≡ none))
        ⊎ (undone.1 ≡ page_with (pristine "Totai")))
unchanged_kept_example = unchanged_kept acquired 20 1 7 "Total" (page_with (pristine "Totai"))
