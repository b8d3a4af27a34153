-- ===== src/Corrections/History.antt =====
-- The OCR text of a region survives its corrections (backend/app/services/corrections.py).
use text.Mathlib.Text.{◌==◌ as str_eq}
use text.Mathlib.TextEquality.{eq_iff}
use yarrow.Prelude.{
  ℕ, String, ◌≡◌, refl, ◌⊎◌, inl, inr, true, false, none, some, List, [], ◌∷◌, arith, Bool-cases,
  ==_refl,
}
use yarrow.Status.{is_completed}
use yarrow.Corrections.{
  Document, Region, RegionText, Session, found, is_table, targets, text_of, corrected,
  store_correction, restore_text, update_region_text, undo_region_correction, touch,
}

-- A text row as the parser writes it.
abbrev pub pristine : String → RegionText
pristine t = record { text_content = some t; original_text = none }

-- An editable region of a completed document: the guards of both operations pass.
pub record IsEditable (document_id region_id : ℕ) (s : Session) : Type 0 where
  pub document : Document
  pub region : Region
  pub row : RegionText
  pub located : s.documents document_id ≡ some document
  pub completed : is_completed document.status ≡ true
  pub placed : s.regions region_id ≡ some region
  pub home : region.document_id ≡ some document_id
  pub kind : is_table region.region_type ≡ false
  pub stored : s.texts region_id ≡ some row

-- An editable region whose OCR text is `t`, corrected or not.
pub record HoldsText (document_id region_id : ℕ) (t : String) (s : Session) : Type 0 where
  pub editable : IsEditable document_id region_id s
  pub open editable use *
  pub ocr : (row ≡ pristine t) ⊎ (row.original_text ≡ some t)

-- The corrections of one region, each at its time.
pub run_updates : ℕ → ℕ → List (ℕ × String) → Session → Session
run_updates document_id region_id [] s = s
run_updates document_id region_id ((now, new_text) ∷ rest) s =
    run_updates document_id region_id rest
      (update_region_text now document_id region_id new_text s).1

module _ (document_id region_id : ℕ) (s : Session) (h : IsEditable document_id region_id s) where
  pub targets_found : targets s document_id region_id ≡ found (h.document, h.row)
  unfolding targets
  targets_found =
      ground
        (arith, h.located, h.completed, h.placed, h.home, h.kind, h.stored, ==_refl document_id)

  pub update_found :
      (now : ℕ) (new_text : String)
      → update_region_text now document_id region_id new_text s
        ≡ store_correction now document_id region_id new_text s h.document h.row
  unfolding update_region_text
  update_found now new_text = rw targets_found

  pub undo_found :
      (now : ℕ)
      → undo_region_correction now document_id region_id s
        ≡ restore_text now document_id region_id s h.document h.row
  unfolding undo_region_correction
  undo_found now = rw targets_found

module _ (document_id region_id : ℕ) (t : String) (s : Session)
    (h : HoldsText document_id region_id t s) where
  update_read :
      (now : ℕ) (new_text : String)
      → (row : RegionText) × ((update_region_text now document_id region_id new_text s).1.texts
            region_id
          ≡ some row)
        × (text_of row ≡ new_text)
  update_read now new_text = rw (update_found document_id region_id s h.editable) (
      unfold store_correction in
      (elim (Bool-cases (str_eq (text_of h.row) new_text)) [
        | inl same ↦ (h.row, ground (arith, h.stored), (eq_iff (text_of h.row) new_text).0 same)
        | inr differs ↦ (
          corrected h.row new_text,
          rw differs (ground (arith, ==_refl region_id)),
          unfold corrected in refl,
        )
      ]))

  update-HoldsText :
      (now : ℕ) (new_text : String)
      → HoldsText document_id region_id t
          (update_region_text now document_id region_id new_text s).1
  update-HoldsText now new_text =
      rw (update_found document_id region_id s h.editable)
        (elim (Bool-cases (str_eq (text_of h.row) new_text)) [
          | inl same ↦ unfold store_correction in rw same h
          | inr differs ↦
              unfold store_correction touch corrected in
              rw differs (record {
                editable = record {
                  document = touch now h.document;
                  region = h.region;
                  row = corrected h.row new_text;
                  located = ground (arith, ==_refl document_id);
                  completed = h.completed;
                  placed = h.placed;
                  home = h.home;
                  kind = h.kind;
                  stored = ground (arith, ==_refl region_id);
                };
                ocr = ground (arith, h.ocr);
              })
        ])

  undo_read :
      (now : ℕ)
      → (undo_region_correction now document_id region_id s).1.texts region_id ≡ some (pristine t)
  undo_read now =
      rw (undo_found document_id region_id s h.editable)
        (unfold restore_text in ground (arith, h.stored, h.ocr, ==_refl region_id))

pub run_updates-HoldsText :
    (document_id region_id : ℕ) (t : String) (edits : List (ℕ × String)) (s : Session)
    → HoldsText document_id region_id t s
    → HoldsText document_id region_id t (run_updates document_id region_id edits s)
unfolding run_updates
run_updates-HoldsText document_id region_id t [] s h = h
run_updates-HoldsText document_id region_id t ((now, new_text) ∷ rest) s h =
    run_updates-HoldsText document_id region_id t rest
      (update_region_text now document_id region_id new_text s).1
      (update-HoldsText document_id region_id t s h now new_text)

-- From a completed document with an editable region whose OCR text is `t`, whatever sequence of
-- corrections is made, one undo leaves the region's row exactly as the parser wrote it.
pub undo-run_updates :
    (document_id region_id : ℕ) (t : String) (edits : List (ℕ × String)) (now : ℕ) (s : Session)
    → HoldsText document_id region_id t s
    → (undo_region_correction now document_id region_id
          (run_updates document_id region_id edits s)).1.texts
        region_id
      ≡ some (pristine t)
undo-run_updates document_id region_id t edits now s h =
    undo_read document_id region_id t (run_updates document_id region_id edits s)
      (run_updates-HoldsText document_id region_id t edits s h) now

-- A correction of an editable region of a completed document makes the region read as the new
-- text, and keeps its OCR text recoverable.
pub update_reads_back :
    (document_id region_id : ℕ) (t : String) (now : ℕ) (new_text : String) (s : Session)
    → HoldsText document_id region_id t s
    → let after = (update_region_text now document_id region_id new_text s).1 in
      ((row : RegionText) × (after.texts region_id ≡ some row) × (text_of row ≡ new_text))
      × HoldsText document_id region_id t after
update_reads_back document_id region_id t now new_text s h = (
  update_read document_id region_id t s h now new_text,
  update-HoldsText document_id region_id t s h now new_text,
)
