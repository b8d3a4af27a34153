-- ===== src/Trash/RoundTrip.antt =====
-- A document that is moved to the trash and restored (backend/app/services/document_deletion.py).
use yarrow.Prelude.{
  ℕ, ◌+◌, ◌≡◌, ◌<◌, refl, ap, ◌∙◌, Bool, false, ◌&&◌, none, some, List, [], ◌∷◌, map, keep, any,
  elem, ◌==◌, if◌then◌else◌, Bool-cases, inl, inr, arith,
}
use yarrow.Status.{canceled, is_active}
use yarrow.Trash.Model.{Document, Job, JobPage, Db, retention}
use yarrow.Trash.Rows.{replace, stop_unfinished_jobs, cancel_page, nothing}
use yarrow.Trash.Restoring.{brought_back, there_and_back}
use yarrow.Trash.Ops.{find_document, soft_delete_document, restore_document}

-- A document that is back, field by field: no time in the trash and no upload id, and canceled if it
-- was being worked on.
abbrev pub back_again : ℕ → Document → Document
back_again later d = record {
  id = d.id;
  owner_id = d.owner_id;
  status = if is_active d.status then canceled else d.status;
  error_message = if is_active d.status then none else d.error_message;
  file_size_bytes = d.file_size_bytes;
  storage_key = d.storage_key;
  client_upload_id = none;
  deleted_at = none;
  updated_at = later;
}

-- A job of a document that is moved to the trash at a time, field by field.
abbrev pub ended_job : ℕ → ℕ → Job → Job
ended_job now document_id j =
    if (j.document_id == document_id) && is_active j.status
    then record {
      id = j.id;
      document_id = j.document_id;
      status = canceled;
      current_stage = canceled;
      celery_task_id = j.celery_task_id;
      updated_at = now;
    }
    else j

-- The page of a job, which ends when the document has an unfinished job with its job's id.
abbrev pub ended_page : ℕ → ℕ → List Job → JobPage → JobPage
ended_page now document_id jobs p =
    if any
        (λ (j : Job). (j.id == p.job_id) && ((j.document_id == document_id) && is_active j.status))
        jobs
      && is_active p.status
    then record { job_id = p.job_id; status = canceled; finished_at = some now }
    else p

-- The rows after the way through the trash and back, table by table.
abbrev pub rows_again : ℕ → ℕ → ℕ → Db → Db
rows_again now later document_id db = record {
  documents =
      map (λ (d : Document). if d.id == document_id then back_again later d else d) db.documents;
  pages = db.pages;
  regions = db.regions;
  region_texts = db.region_texts;
  region_images = db.region_images;
  region_tables = db.region_tables;
  tables = db.tables;
  table_cells = db.table_cells;
  warnings = db.warnings;
  jobs = map (ended_job now document_id) db.jobs;
  job_pages = map (ended_page now document_id db.jobs) db.job_pages;
  shares = db.shares;
  tags = db.tags;
  users = db.users;
}

brought_back-back_again :
    (now later : ℕ) (d : Document) → brought_back now later d ≡ back_again later d
brought_back-back_again now later d = elim (Bool-cases (is_active d.status)) [
  | inl active ↦ rw active refl
  | inr idle ↦ rw idle refl
]

documents_again :
    (now later id : ℕ) (documents : List Document)
    → replace id (brought_back now later) documents
      ≡ map (λ (d : Document). if d.id == id then back_again later d else d) documents
documents_again now later id [] = refl
documents_again now later id (d ∷ documents) = rw (brought_back-back_again now later d) (
    ap (λ ds. (if d.id == id then back_again later d else d) ∷ ds)
      (documents_again now later id documents))

elem-ids :
    (n : ℕ) (test : Job → Bool) (jobs : List Job)
    → elem n (map (λ (j : Job). j.id) (keep test jobs))
      ≡ any (λ (j : Job). (j.id == n) && test j) jobs
elem-ids n test [] = refl
elem-ids n test (j ∷ jobs) = elim (Bool-cases (test j)) [
  | inl kept ↦ rw kept (ground (arith, elem-ids n test jobs))
  | inr left ↦ rw left (ground (arith, elem-ids n test jobs))
]

pages_again :
    (now document_id : ℕ) (jobs : List Job) (pages : List JobPage)
    → map
        (cancel_page now (
          map
            (λ (j : Job). j.id)
            (keep (λ (j : Job). (j.document_id == document_id) && is_active j.status) jobs)))
        pages
      ≡ map (ended_page now document_id jobs) pages
pages_again now document_id jobs [] = refl
pages_again now document_id jobs (p ∷ pages) =
    let test = λ (j : Job). (j.document_id == document_id) && is_active j.status in
    rw (elem-ids p.job_id test jobs)
      (ap (λ ps. ended_page now document_id jobs p ∷ ps) (pages_again now document_id jobs pages))

rows_there :
    (now later : ℕ) (d : Document) (db : Db)
    → record (stop_unfinished_jobs now d db).1 {
      documents = replace d.id (brought_back now later) db.documents;
    }
      ≡ rows_again now later d.id db
unfolding stop_unfinished_jobs
rows_there now later d db =
    ap
      (λ ps. record (rows_again now later d.id db) {
        documents = replace d.id (brought_back now later) db.documents;
        job_pages = ps;
      })
      (pages_again now d.id db.jobs db.job_pages)
    ∙ ap (λ ds. record (rows_again now later d.id db) { documents = ds })
        (documents_again now later d.id db.documents)

-- A live document that is moved to the trash and restored by its owner before its retention ends
-- is back: the restore reports no error and nothing to remove, and answers with the document. It
-- has its fields from before but for its upload id, which is gone, the time of its last update and,
-- where it was worked on, its status, now canceled, and its error message, now none. Its unfinished
-- jobs and their unfinished pages are canceled, and every other row is as before.
pub restore_document-soft_delete_document :
    (locked : ℕ → Bool) (now later : ℕ) (d : Document) (db : Db)
    → locked d.id ≡ false
    → find_document d.id db.documents ≡ some d
    → d.deleted_at ≡ none
    → later < now + retention
    → restore_document locked later d.id d.owner_id (soft_delete_document locked now d.id db).1 ≡ (
      record { error = none; document = some (back_again later d); leftovers = nothing },
      rows_again now later d.id db,
    )
restore_document-soft_delete_document locked now later d db unlocked found live soon =
    there_and_back locked now later d db unlocked found live soon
    ∙ ap
        (λ e. (
          record { error = none; document = some e; leftovers = nothing },
          record (stop_unfinished_jobs now d db).1 {
            documents = replace d.id (brought_back now later) db.documents;
          },
        ))
        (brought_back-back_again now later d)
    ∙ ap
        (λ rows. (
          record { error = none; document = some (back_again later d); leftovers = nothing },
          rows,
        ))
        (rows_there now later d db)
