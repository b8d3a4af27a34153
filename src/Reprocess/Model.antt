-- ===== src/Reprocess/Model.antt =====
-- The decisions of backend/app/services/reprocess.py and the request `reprocess_document`.
use yarrow.Prelude.{
  ℕ, ◌+◌, String, Bool, true, false, not, ◌&&◌, Option, none, some, List, [], ◌∷◌, ltb,
  if◌then◌else◌, or_else, length, elem, range_from, keep, map, ◌==◌,
}
use yarrow.Status.{Status, queued, failed, is_active, is_failed, is_completed}

-- A row of `jobs`.
pub record Job : Type 0 where
  pub id : ℕ
  pub status : Status
  pub updated_at : Option ℕ
  pub error_message : Option String
  pub total_pages : ℕ
  pub requested_by_id : Option ℕ
  pub retry_of_job_id : Option ℕ
  pub celery_task_id : Option ℕ

-- `now - job["updated_at"] > timedelta(seconds=limit)`
abbrev pub silent : ℕ → Option ℕ → ℕ → Bool
silent limit none now = true
silent limit (some updated_at) now = ltb (updated_at + limit) now

-- `limit` is JOB_INTERRUPTED_AFTER_SECONDS.
unfoldable pub is_interrupted : ℕ → Option Job → ℕ → Bool
is_interrupted limit none now = false
is_interrupted limit (some job) now = is_active job.status && silent limit job.updated_at now

abbrev pub job_active : Option Job → Bool
job_active none = false
job_active (some job) = is_active job.status

unfoldable pub is_running : ℕ → Option Job → ℕ → Bool
is_running limit job now = job_active job && not (is_interrupted limit job now)

unfoldable pub interrupted : ℕ → Status → Option Job → ℕ → Bool
interrupted limit document_status job now =
    if is_interrupted limit job now then true else is_active document_status && not (job_active job)

pub data Scope : Type 0 where
  incomplete all : Scope

abbrev pub fewer_than : ℕ → Option ℕ → Bool
fewer_than completed_pages none = false
fewer_than completed_pages (some page_count) = ltb completed_pages page_count

unfoldable pub reprocess_scope : ℕ → Status → Option ℕ → ℕ → Option Job → ℕ → Option Scope
reprocess_scope limit document_status page_count completed_pages job now =
    if is_running limit job now
    then none
    else if interrupted limit document_status job now
    then some incomplete
    else if is_failed document_status
    then some incomplete
    else if is_completed document_status && fewer_than completed_pages page_count
    then some incomplete
    else some all

unfoldable pub pages_to_process : Option ℕ → List ℕ → Option (List ℕ)
pages_to_process none completed = none
pages_to_process (some page_count) completed =
    some (keep (λ number. not (elem number completed)) (range_from 1 page_count))

-- The document that a request locks: its row, its jobs with the latest first, and the numbers of
-- its pages that are completed.
pub record Db : Type 0 where
  pub status : Status
  pub error_message : Option String
  pub page_count : Option ℕ
  pub jobs : List Job
  pub completed : List ℕ

pub data ReprocessError : Type 0 where
  already_processing queue_unavailable : ReprocessError

-- The outcome without its `detail` text.
pub record ReprocessOutcome : Type 0 where
  pub error : Option ReprocessError
  pub scope : Option Scope
  pub pages : Option (List ℕ)
  pub job_id : Option ℕ

abbrev pub refusal : ReprocessError → ReprocessOutcome
refusal e = record { error = some e; scope = none; pages = none; job_id = none }

abbrev pub interrupted_message : String
interrupted_message = "Processing stopped before it finished."

abbrev pub queue_failed_message : String
queue_failed_message =
    "The file was uploaded, but processing could not be started. Please try again later."

abbrev pub latest : List Job → Option Job
latest [] = none
latest (job ∷ jobs) = some job

-- An active job that is not running any more has failed.
unfoldable pub close_latest : ℕ → List Job → List Job
close_latest now [] = []
close_latest now (job ∷ jobs) =
    if is_active job.status
    then record job {
      status = failed;
      error_message = some interrupted_message;
      updated_at = some now;
    }
      ∷ jobs
    else job ∷ jobs

abbrev pub scope_pages : Option Scope → Db → Option (List ℕ)
scope_pages (some incomplete) db = pages_to_process db.page_count db.completed
scope_pages _ db = none

abbrev pub page_total : Option (List ℕ) → Option ℕ → ℕ
page_total none page_count = or_else page_count 0
page_total (some pages) page_count = length pages

-- Who asked for the run and what it retries, the id of its job, and what the queue answers: the id
-- of a task, or `none` when it raises.
pub record Request : Type 0 where
  pub job_id : ℕ
  pub requested_by_id : Option ℕ
  pub retry_of_job_id : Option ℕ
  pub task_id : Option ℕ

unfoldable pub new_job : ℕ → Request → Option (List ℕ) → Db → Job
new_job now request pages db = record {
  id = request.job_id;
  status = queued;
  updated_at = some now;
  error_message = none;
  total_pages = page_total pages db.page_count;
  requested_by_id = request.requested_by_id;
  retry_of_job_id = request.retry_of_job_id;
  celery_task_id = none;
}

-- `document.status, document.error_message = previous_state`: a column is written only when the
-- value differs from the one that the session committed last, queued and no message.
abbrev pub restore_status : Status → Status → Status
restore_status queued current = current
restore_status previous current = previous

abbrev pub restore_message : Option String → Option String → Option String
restore_message none current = current
restore_message (some previous) current = some previous

abbrev pub write_job : ℕ → (Job → Job) → List Job → List Job
write_job id f = map (λ (job : Job). if job.id == id then f job else job)

-- The first commit, which also releases the lock of the document's row.
unfoldable pub queue_document : Job → List Job → Db → Db
queue_document job older db = record db {
  status = queued;
  error_message = none;
  jobs = job ∷ older;
}

-- The queue raised: the job has failed and the document is as it was.
unfoldable pub restore_failed_document : ℕ → Job → Db → Db → Db
restore_failed_document now job before db = record db {
  status = restore_status before.status db.status;
  error_message = restore_message before.error_message db.error_message;
  jobs =
      write_job job.id
        (λ j. record j {
          status = failed;
          error_message = some queue_failed_message;
          updated_at = some now;
        })
        db.jobs;
}

-- `meanwhile` is what others commit to the document, its jobs and its pages between the two commits
-- of a request; `before` has the document's row as it was before the first of them. A job row that
-- is deleted in between makes the second commit raise, which is not modelled.
unfoldable pub enqueue_job :
    ℕ → Option ℕ → Option Scope → Option (List ℕ) → Job → Db → Db → ReprocessOutcome × Db
enqueue_job now none scope pages job before db =
    (refusal queue_unavailable, restore_failed_document now job before db)
enqueue_job now (some task_id) scope pages job before db = (
  record { error = none; scope = scope; pages = pages; job_id = some job.id },
  record db {
    jobs =
        write_job job.id (λ j. record j { celery_task_id = some task_id; updated_at = some now })
          db.jobs;
  },
)

unfoldable pub reprocess_document : ℕ → ℕ → (Db → Db) → Request → Db → ReprocessOutcome × Db
reprocess_document limit now meanwhile request db =
    if is_running limit (latest db.jobs) now
    then (refusal already_processing, db)
    else let scope =
        reprocess_scope limit db.status db.page_count (length db.completed) (latest db.jobs) now in
      let pages = scope_pages scope db in
      let job = new_job now request pages db in
      enqueue_job now request.task_id scope pages job db
        (meanwhile (queue_document job (close_latest now db.jobs) db))
