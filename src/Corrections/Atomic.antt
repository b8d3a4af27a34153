-- ===== src/Corrections/Atomic.antt =====
-- What a correction and an undo change of the rows (backend/app/services/corrections.py).
use text.Mathlib.Text.{◌==◌ as str_eq}
use yarrow.Prelude.{
  ℕ, String, ◌≡◌, ◌≢◌, ◌⊎◌, refl, true, none, is_none, Bool-cases, Option-cases, arith, inl, inr,
}
use yarrow.Corrections.{
  CorrectionOutcome, Document, RegionText, Session, Lock, acquired, timed_out, apply, Checked,
  found, refused, refuse, targets, text_of, on_targets, update_region_text, undo_region_correction,
  store_correction, restore_text,
}

-- A change without an error, or the rows as they were.
abbrev Settles : Session → CorrectionOutcome × Session → Type 0
Settles s result = ((result.0.changed ≡ true) × (result.0.error ≡ none)) ⊎ (result.1 ≡ s)

module _ (s : Session) where
  store_correction-Settles :
      (now document_id region_id : ℕ) (new_text : String) (document : Document) (row : RegionText)
      → Settles s (store_correction now document_id region_id new_text s document row)
  unfolding store_correction
  store_correction-Settles now document_id region_id new_text document row =
      elim (Bool-cases (str_eq (text_of row) new_text)) [
        | inl same ↦ rw (same, store_correction) (inr refl)
        | inr differs ↦ rw (differs, store_correction) (inl (refl, refl))
      ]

  restore_text-Settles :
      (now document_id region_id : ℕ) (document : Document) (row : RegionText)
      → Settles s (restore_text now document_id region_id s document row)
  unfolding restore_text refuse
  restore_text-Settles now document_id region_id document row =
      elim (Bool-cases (is_none row.original_text)) [
        | inl uncorrected ↦ rw (uncorrected, restore_text) (inr refl)
        | inr corrected ↦ rw (corrected, restore_text) (inl (refl, refl))
      ]

  on_targets-Settles :
      (c : Checked (Document × RegionText))
      (operation : Document → RegionText → CorrectionOutcome × Session)
      → ((document : Document) (row : RegionText) → Settles s (operation document row))
      → Settles s (on_targets s c operation)
  unfolding refuse
  on_targets-Settles (refused e) operation settles = inr refl
  on_targets-Settles (found (document, row)) operation settles = settles document row

  apply-Settles :
      (lock : Lock) (operation : Session → CorrectionOutcome × Session)
      → Settles s (operation s)
      → Settles s (apply lock operation s)
  unfolding apply
  apply-Settles timed_out operation h = inr refl
  apply-Settles acquired operation (inl (changed, fine)) = inl (changed, fine)
  apply-Settles acquired operation (inr same) = elim (Option-cases (operation s).0.error) [
    | inl fine ↦ inr (ground (arith, fine, same))
    | inr (e, refusal) ↦ inr (ground (arith, refusal))
  ]

-- Whether or not the row lock comes, a correction and an undo each report a change without an error,
-- or leave every row as it was.
pub unchanged_kept :
    (lock : Lock) (now document_id region_id : ℕ) (new_text : String) (s : Session)
    → let updated = apply lock (update_region_text now document_id region_id new_text) s in
      let undone = apply lock (undo_region_correction now document_id region_id) s in
      (((updated.0.changed ≡ true) × (updated.0.error ≡ none)) ⊎ (updated.1 ≡ s))
      × (((undone.0.changed ≡ true) × (undone.0.error ≡ none)) ⊎ (undone.1 ≡ s))
unfolding update_region_text undo_region_correction
unchanged_kept lock now document_id region_id new_text s = (
  apply-Settles s lock _ (
      on_targets-Settles s (targets s document_id region_id) _
        (store_correction-Settles s now document_id region_id new_text)),
  apply-Settles s lock _ (
      on_targets-Settles s (targets s document_id region_id) _
        (restore_text-Settles s now document_id region_id)),
)

-- Neither a correction nor an undo changes the text of a region other than its own.
pub other_rows_kept :
    (now document_id region_id other : ℕ) (new_text : String) (s : Session)
    → other ≢ region_id
    → ((update_region_text now document_id region_id new_text s).1.texts other ≡ s.texts other)
      × ((undo_region_correction now document_id region_id s).1.texts other ≡ s.texts other)
unfolding update_region_text undo_region_correction store_correction restore_text
other_rows_kept now document_id region_id other new_text s h = (ground arith, ground arith)
