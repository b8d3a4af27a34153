-- ===== src/Corrections.antt =====
-- Correcting and reverting the extracted text of a region (backend/app/services/corrections.py).
-- The database session is the rows that these functions read, by id; the clock is an argument.
pub mod History
pub mod Atomic
mod Samples
use text.Mathlib.Text.{◌==◌ as str_eq}
use yarrow.Prelude.{
  ℕ, String, Bool, true, false, not, Option, none, some, ◌==◌, if◌then◌else◌, or_else, is_none,
}
use yarrow.Status.{Status, is_completed}

pub data CorrectionError : Type 0 where
  document_not_processed document_busy region_not_found : CorrectionError
  region_not_editable not_corrected : CorrectionError

-- The outcome without its `detail` text.
pub record CorrectionOutcome : Type 0 where
  pub changed : Bool
  pub error : Option CorrectionError

pub data RegionType : Type 0 where
  header paragraph figure table : RegionType

pub record Document : Type 0 where
  pub status : Status
  pub updated_at : ℕ

-- A region with the document of its page; `none` is a region whose page is missing.
pub record Region : Type 0 where
  pub document_id : Option ℕ
  pub region_type : RegionType

pub record RegionText : Type 0 where
  pub text_content : Option String
  pub original_text : Option String

-- The parser writes at most one text row for a region, so text rows are keyed by their region.
pub record Session : Type 0 where
  pub documents : ℕ → Option Document
  pub regions : ℕ → Option Region
  pub texts : ℕ → Option RegionText

abbrev pub update {ℓ} : {A : Type ℓ} → (ℕ → Option A) → ℕ → A → ℕ → Option A
update rows k a j = if j == k then some a else rows j

-- What `_Refused` carries, or a value.
pub data Checked (A : Type 0) : Type 0 where
  found : A → Checked A
  refused : CorrectionError → Checked A

infixl 5 ◌>>=◌
abbrev pub ◌>>=◌ : {A B : Type 0} → Checked A → (A → Checked B) → Checked B
found a >>= f = f a
refused e >>= f = refused e

ready_document : Option Document → Checked Document
ready_document none = refused document_not_processed
ready_document (some d) = if is_completed d.status then found d else refused document_not_processed

pub lock_document : Session → ℕ → Checked Document
unfolding ready_document
lock_document s document_id = ready_document (s.documents document_id)

abbrev is_table : RegionType → Bool
is_table table = true
is_table _ = false

-- `region is None or page is None or page.document_id != document_id`
in_document : ℕ → Option Region → Checked Region
in_document document_id none = refused region_not_found
in_document document_id (some r) = elim r.document_id [
  | none ↦ refused region_not_found
  | some owner ↦ if owner == document_id then found r else refused region_not_found
]

editable_text : Region → Option RegionText → Checked RegionText
editable_text r text_row =
    if is_table r.region_type
    then refused region_not_editable
    else elim text_row [ none ↦ refused region_not_editable | some row ↦ found row ]

pub resolve_region_text : Session → ℕ → ℕ → Checked RegionText
unfolding in_document editable_text
resolve_region_text s document_id region_id = do
  region ← in_document document_id (s.regions region_id)
  editable_text region (s.texts region_id)

pub touch : ℕ → Document → Document
touch now d = record d { updated_at = now }

pub refuse : Session → CorrectionError → CorrectionOutcome × Session
refuse s e = (record { changed = false; error = some e }, s)

pub targets : Session → ℕ → ℕ → Checked (Document × RegionText)
unfolding lock_document resolve_region_text
targets s document_id region_id = do
  document ← lock_document s document_id
  text_row ← resolve_region_text s document_id region_id
  found (document, text_row)

-- The row after a correction to `new_text`.
pub corrected : RegionText → String → RegionText
corrected row new_text = record {
  text_content = some new_text;
  original_text = if is_none row.original_text then row.text_content else row.original_text;
}

abbrev pub text_of : RegionText → String
text_of row = or_else row.text_content ""

abbrev pub on_targets :
    Session
    → Checked (Document × RegionText)
    → (Document → RegionText → CorrectionOutcome × Session)
    → CorrectionOutcome × Session
on_targets s (refused e) operation = refuse s e
on_targets s (found (document, row)) operation = operation document row

pub store_correction :
    ℕ → ℕ → ℕ → String → Session → Document → RegionText → CorrectionOutcome × Session
unfolding touch corrected
store_correction now document_id region_id new_text s document row =
    if not (str_eq (text_of row) new_text)
    then (
      record { changed = true; error = none },
      record s {
        documents = update s.documents document_id (touch now document);
        texts = update s.texts region_id (corrected row new_text);
      },
    )
    else (record { changed = false; error = none }, s)

pub update_region_text : ℕ → ℕ → ℕ → String → Session → CorrectionOutcome × Session
unfolding refuse
update_region_text now document_id region_id new_text s =
    on_targets s (targets s document_id region_id)
      (store_correction now document_id region_id new_text s)

pub restore_text : ℕ → ℕ → ℕ → Session → Document → RegionText → CorrectionOutcome × Session
unfolding touch refuse
restore_text now document_id region_id s document row =
    if is_none row.original_text then refuse s not_corrected else (
      record { changed = true; error = none },
      record s {
        documents = update s.documents document_id (touch now document);
        texts =
            update s.texts region_id
              (record { text_content = row.original_text; original_text = none });
      },
    )

pub undo_region_correction : ℕ → ℕ → ℕ → Session → CorrectionOutcome × Session
unfolding refuse
undo_region_correction now document_id region_id s =
    on_targets s (targets s document_id region_id) (restore_text now document_id region_id s)

-- Whether the row lock came, or the wait for it ran out.
pub data Lock : Type 0 where
  acquired timed_out : Lock

-- `_apply`: a commit keeps the new rows, a rollback the old ones.
pub apply : Lock → (Session → CorrectionOutcome × Session) → Session → CorrectionOutcome × Session
apply timed_out operation s = (record { changed = false; error = some document_busy }, s)
apply acquired operation s =
    let (outcome, after) = operation s in
    (outcome, elim outcome.error [ none ↦ after | some _ ↦ s ])
