-- ===== src/Uploads/Finalize/Commit.antt =====
-- The commit that completes a session (backend/app/api/v1/endpoints/uploads.py).
use yarrow.Prelude.{
  ℕ, ◌+◌, Bool, true, false, not, ◌&&◌, Option, none, some, List, [], ◌∷◌, ◌++◌, map, ltb, ◌==◌,
  if◌then◌else◌, is_none,
}
use yarrow.Status.{queued, completed, failed}
use yarrow.Uploads.Model.{
  Settings, Externals, Upload, Key, Document, Job, Batch, Db, Error, Result, ok, raise, Action,
  document_object, duplicate_409, storage_503, quota_413, put_object, new_expiry, fail_with,
}
use yarrow.Uploads.Chunks.{Faults, delete_objects, discard_chunks, fail}
use yarrow.Uploads.Finalize.Lookup.{
  Accepted, Finalize, check_batch, get_or_create_batch, identical_document, queue_failed_message,
}
use yarrow.Uploads.Finalize.File.{Assembled, file_problem}

-- Ids that are new to the database.
pub record Fresh : Type 0 where
  pub document_id : ℕ
  pub job_id : ℕ
  pub task_id : ℕ

-- A finalize whose file has no place: its object is removed again.
unfoldable pub withdraw : {A : Type 0} → Faults → Key → Error → Action A
withdraw faults key refusal db = (
  raise refusal,
  record db { objects = (delete_objects faults.delete_fails (key ∷ []) db.objects).1 },
)

abbrev pub batch_rows : ℕ → Option ℕ → List Batch → Result (List Batch)
batch_rows owner_id none batches = ok batches
batch_rows owner_id (some batch_id) batches = get_or_create_batch owner_id batch_id batches

-- The rows of the one commit that completes the session.
unfoldable pub completed_rows :
    Settings → ℕ → Upload → Fresh → Option ℕ → ℕ → ℕ → List Batch → Db → Db
completed_rows settings now upload fresh batch_id size digest batches db = record db {
  upload = some (record upload {
    status = completed;
    document_id = some fresh.document_id;
    file_sha256 = some digest;
    batch_id = batch_id;
    error_message = none;
    expires_at = new_expiry settings now;
  });
  documents =
      db.documents
      ++ record {
        id = fresh.document_id;
        owner_id = upload.owner_id;
        filename = upload.filename;
        file_size_bytes = size;
        content_sha256 = some digest;
        storage_key = document_object fresh.document_id;
        batch_id = batch_id;
        status = queued;
        error_message = none;
        trashed = false;
      }
        ∷ [];
  jobs =
      record {
        id = fresh.job_id;
        document_id = fresh.document_id;
        status = queued;
        error_message = none;
        task_id = none;
      }
      ∷ db.jobs;
  batches = batches;
  storage_used_bytes = db.storage_used_bytes + size;
}

-- What enqueueing leaves of the new job and document.
unfoldable pub enqueued : Bool → Fresh → Db → Db
enqueued false fresh db = record db {
  jobs =
      map
        (λ (j : Job). if j.id == fresh.job_id then record j { task_id = some fresh.task_id } else j)
        db.jobs;
}
enqueued true fresh db = record db {
  jobs =
      map
        (λ (j : Job).
          if j.id == fresh.job_id
          then record j { status = failed; error_message = some queue_failed_message }
          else j)
        db.jobs;
  documents =
      map
        (λ (d : Document).
          if d.id == fresh.document_id
          then record d { status = failed; error_message = some queue_failed_message }
          else d)
        db.documents;
}

-- From the user's row lock to the end.
unfoldable pub finalize_locked :
    Settings → Faults → ℕ → Finalize → Upload → Fresh → ℕ → ℕ → Option ℕ → Action Accepted
finalize_locked settings faults now payload upload fresh size digest batch_id db =
    if not payload.allow_duplicate
      && not (is_none (identical_document upload.owner_id digest db.documents))
    then withdraw faults (document_object fresh.document_id) duplicate_409 db
    else if ltb settings.storage_quota_bytes (db.storage_used_bytes + size)
    then withdraw faults (document_object fresh.document_id) quota_413 db
    else elim (batch_rows upload.owner_id batch_id db.batches) [
      | raise refusal ↦ fail_with refusal db
      | ok batches ↦ (
        ok (record {
          document_id = fresh.document_id;
          job_id = fresh.job_id;
          filename = upload.filename;
          file_size_bytes = size;
          status = if faults.queue_fails then failed else queued;
        }),
        discard_chunks faults.delete_fails (
            enqueued faults.queue_fails fresh
              (completed_rows settings now upload fresh batch_id size digest batches db)),
      )
    ]

-- From the assembled file to the user's row lock. `meanwhile` is what other requests commit while
-- the object is stored; they do not touch this session, whose row is locked.
unfoldable pub finalize_file :
    Settings
    → Externals
    → Faults
    → (Db → Db)
    → ℕ
    → Finalize
    → Upload
    → Fresh
    → Assembled
    → Action Accepted
finalize_file settings externals faults meanwhile now payload upload fresh file db =
    let digest = externals.sha256 file.spool in
    let batch_id : Option ℕ = elim payload.batch_id [
      | none ↦ upload.batch_id
      | some id ↦ some id
    ] in
    elim (file_problem settings payload upload file.size digest (externals.guess file.header)) [
      | some reason ↦ fail faults.delete_fails upload reason db
      | none ↦ elim (check_batch upload.owner_id batch_id db) [
        | raise refusal ↦ fail_with refusal db
        | ok _ ↦
            if not payload.allow_duplicate
              && not (is_none (identical_document upload.owner_id digest db.documents))
            then fail_with duplicate_409 db
            else if faults.upload_fails
            then fail_with storage_503 db
            else finalize_locked settings faults now payload upload fresh file.size digest batch_id
                (meanwhile (record db {
                  objects = put_object (document_object fresh.document_id) file.spool db.objects;
                }))
      ]
    ]
