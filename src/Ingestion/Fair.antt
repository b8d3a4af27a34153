-- ===== src/Ingestion/Fair.antt =====
-- What others may do while a task runs (worker/app/tasks/ingestion.py,
-- backend/app/api/v1/endpoints/documents.py).
use yarrow.Prelude.{
  ℕ, ◌≡◌, refl, Bool, true, Option, none, some, List, if◌then◌else◌, is_none, Bool-cases, inl, inr,
}
use yarrow.Status.{is_active, is_terminal}
use yarrow.Ingestion.Model.{Job, Document, JobPage, Page, Db}
use yarrow.Ingestion.Ops.{cancel_document_processing}
use yarrow.Ingestion.Canceled.{rows_of}

-- The job is gone, or it is completed, failed or canceled.
abbrev pub has_ended : Db → Bool
has_ended db = elim db.job [ none ↦ true | some job ↦ is_terminal job.status ]

-- A job is deleted with its document.
abbrev pub IsPaired : Db → Type 0
IsPaired db = is_none db.document ≡ true → is_none db.job ≡ true

-- What others do meanwhile: they delete a document with its job, and an ended job stays so.
pub record IsFair (meanwhile : ℕ → Db → Db) : Type 0 where
  pub paired : (turn : ℕ) (db : Db) → IsPaired db → IsPaired (meanwhile turn db)
  pub ended : (turn : ℕ) (db : Db) → has_ended db ≡ true → has_ended (meanwhile turn db) ≡ true

-- A user who cancels at some turn is fair.
module _ (job_pages : List JobPage) (pages : List Page) (now : ℕ) where
  cancel-keeps :
      (job : Option Job) (document : Option Document)
      → IsPaired (rows_of job_pages pages job document)
      → IsPaired (cancel_document_processing now (rows_of job_pages pages job document)).1
  unfolding cancel_document_processing
  cancel-keeps job none h = h
  cancel-keeps none (some document) h = h
  cancel-keeps (some job) (some document) h = elim (Bool-cases (is_active job.status)) [
    | inl active ↦ rw active (λ missing. absurd (cc missing))
    | inr idle ↦ rw idle h
  ]

  cancel-ended :
      (job : Option Job) (document : Option Document)
      → has_ended (rows_of job_pages pages job document) ≡ true
      → has_ended (cancel_document_processing now (rows_of job_pages pages job document)).1 ≡ true
  unfolding cancel_document_processing
  cancel-ended job none h = h
  cancel-ended none (some document) h = h
  cancel-ended (some job) (some document) h = elim (Bool-cases (is_active job.status)) [
    | inl active ↦ rw active refl
    | inr idle ↦ rw idle h
  ]

-- Turns at which a user cancels, and nothing else happens.
abbrev pub cancels_at : (ℕ → Bool) → ℕ → ℕ → Db → Db
cancels_at turns now turn db = if turns turn then (cancel_document_processing now db).1 else db

pub cancels_at-IsFair : (turns : ℕ → Bool) (now : ℕ) → IsFair (cancels_at turns now)
cancels_at-IsFair turns now = record {
  paired = λ turn db h. elim (Bool-cases (turns turn)) [
    | inl cancels ↦ rw cancels (cancel-keeps db.job_pages db.pages now db.job db.document h)
    | inr waits ↦ rw waits h
  ];
  ended = λ turn db h. elim (Bool-cases (turns turn)) [
    | inl cancels ↦ rw cancels (cancel-ended db.job_pages db.pages now db.job db.document h)
    | inr waits ↦ rw waits h
  ];
}
