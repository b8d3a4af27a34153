-- ===== src/Uploads/Finalize/Lookup.antt =====
-- The lookups of a finalize, which it shares with the single-request upload
-- (backend/app/api/v1/endpoints/documents.py), and the answer of a finished session.
use yarrow.Prelude.{
  ℕ, String, Bool, false, not, ◌&&◌, Option, none, some, List, [], ◌∷◌, ◌++◌, map, ◌==◌,
  if◌then◌else◌, is_none, find_first,
}
use yarrow.Status.{Status}
use yarrow.Uploads.Model.{
  Upload, Document, Job, Batch, Db, Result, ok, raise, Action, document_deleted_410,
  file_mismatch_409, batch_404, fail_with,
}

abbrev pub checksum_message : String
checksum_message =
    "The uploaded file does not match the checksum it was sent with. Please upload it again."

-- The source adds the limit's size to this text.
abbrev pub too_large_message : String
too_large_message = "File is too large."

abbrev pub queue_failed_message : String
queue_failed_message =
    "The file was uploaded, but processing could not be started. Please try again later."

pub record Finalize : Type 0 where
  pub sha256 : Option ℕ
  pub batch_id : Option ℕ
  pub allow_duplicate : Bool

pub record Accepted : Type 0 where
  pub document_id : ℕ
  pub job_id : ℕ
  pub filename : String
  pub file_size_bytes : ℕ
  pub status : Status

-- `_identical_document`: the owner's earliest document, outside the trash, with these bytes.
-- Documents are listed in their order of creation.
unfoldable pub identical_document : ℕ → ℕ → List Document → Option Document
identical_document owner_id digest = find_first (λ d.
    d.owner_id == owner_id
    && not d.trashed
    && (elim d.content_sha256 [ none ↦ false | some sha ↦ sha == digest ]))

abbrev pub find_document : ℕ → List Document → Option Document
find_document id = find_first (λ d. d.id == id)

abbrev pub find_batch : ℕ → List Batch → Option Batch
find_batch id = find_first (λ b. b.id == id)

-- `_check_batch`
unfoldable pub check_batch : ℕ → Option ℕ → Db → Result (Unit {0})
check_batch owner_id none db = ok tt
check_batch owner_id (some batch_id) db = elim (find_batch batch_id db.batches) [
  | none ↦ ok tt
  | some b ↦ if b.owner_id == owner_id then ok tt else raise batch_404
]

abbrev pub reopened : Batch → Batch
reopened b = record b { completed_at = none; sealed_at = none; claimed_at = none }

abbrev pub reopen_batch : ℕ → List Batch → List Batch
reopen_batch id = map (λ b. if b.id == id then reopened b else b)

-- `_get_or_create_batch`: the batches with the caller's batch among them, open again.
unfoldable pub get_or_create_batch : ℕ → ℕ → List Batch → Result (List Batch)
get_or_create_batch owner_id batch_id batches = elim (find_batch batch_id batches) [
  | none ↦ ok (
      batches
      ++ record {
        id = batch_id;
        owner_id = owner_id;
        completed_at = none;
        sealed_at = none;
        claimed_at = none;
      }
        ∷ [])
  | some b ↦ if b.owner_id == owner_id then ok (reopen_batch batch_id batches) else raise batch_404
]

-- `_accepted_for`. Jobs are listed with the latest first.
unfoldable pub accepted_for : List Job → Document → Accepted
accepted_for jobs document = record {
  document_id = document.id;
  job_id = elim (find_first (λ (j : Job). j.document_id == document.id) jobs) [
    | none ↦ document.id
    | some job ↦ job.id
  ];
  filename = document.filename;
  file_size_bytes = document.file_size_bytes;
  status = document.status;
}

abbrev pub differs : Option ℕ → Option ℕ → Bool
differs (some a) (some b) = not (a == b)
differs _ _ = false

-- A document stored outside any run joins the run being retried.
unfoldable pub join_batch : ℕ → Option ℕ → Document → Action Accepted
join_batch owner_id none document db = (ok (accepted_for db.jobs document), db)
join_batch owner_id (some batch_id) document db =
    if is_none document.batch_id
    then elim (get_or_create_batch owner_id batch_id db.batches) [
      | raise refusal ↦ fail_with refusal db
      | ok batches ↦ (
        ok (accepted_for db.jobs document),
        record db {
          batches = batches;
          documents =
              map (λ d. if d.id == document.id then record d { batch_id = some batch_id } else d)
                db.documents;
        },
      )
    ]
    else (ok (accepted_for db.jobs document), db)

abbrev pub recorded_document : Option ℕ → List Document → Option Document
recorded_document none documents = none
recorded_document (some id) documents = find_document id documents

-- A finalize of a session that is completed already.
unfoldable pub finish_again : ℕ → Finalize → Upload → Action Accepted
finish_again owner_id payload upload db = elim (recorded_document upload.document_id db.documents) [
  | none ↦ fail_with document_deleted_410 db
  | some document ↦
      if differs payload.sha256 upload.file_sha256
      then fail_with file_mismatch_409 db
      else join_batch owner_id payload.batch_id document db
]
