-- ===== src/Ingestion/Ops.antt =====
-- The transactions of a run (worker/app/tasks/ingestion.py), and the cancel of a user
-- (backend/app/api/v1/endpoints/documents.py) on the rows of one job.
use yarrow.Prelude.{
  ℕ, ◌+◌, Bool, true, false, not, ◌&&◌, Option, none, some, List, map, ◌==◌, if◌then◌else◌, length,
  keep, any, elem, range_from,
}
use yarrow.Status.{
  Status, queued, processing, completed, failed, canceled, is_active, is_processing, is_canceled,
}
use yarrow.Ingestion.Model.{
  Stage, downloading, parsing, failed_stage, canceled_stage, Message, Job, Document, PageError,
  JobPage, Db, PageEvent, started, page_completed, page_failed, job_deleted, job_canceled, Checked,
  ok, stop,
}

abbrev pub in_scope : Option (List ℕ) → ℕ → Bool
in_scope none n = true
in_scope (some numbers) n = elem n numbers

unfoldable pub run_page_numbers : ℕ → Option (List ℕ) → List ℕ
run_page_numbers page_count scope = keep (in_scope scope) (range_from 1 page_count)

unfoldable pub lock_running_job : Db → Checked Job
lock_running_job db = elim db.job [
  | none ↦ stop job_deleted
  | some job ↦ if is_canceled job.status then stop job_canceled else ok job
]

unfoldable pub set_stage : Stage → Db → Checked (Unit {0}) × Db
set_stage stage db = elim (lock_running_job db) [
  | stop e ↦ (stop e, db)
  | ok job ↦ (ok tt, record db { job = some (record job { current_stage = stage }) })
]

-- Whether the run goes on: it does not for a job that is gone or canceled (or, which the database
-- rules out, one without its document).
unfoldable pub start_run : Db → Bool × Db
start_run db = elim db.job [
  | none ↦ (false, db)
  | some job ↦ if is_canceled job.status then (false, db) else elim db.document [
    | none ↦ (false, db)
    | some document ↦ (
      true,
      record db {
        job = some (record job { status = processing; current_stage = downloading });
        document = some (record document { status = processing });
      },
    )
  ]
]

abbrev pub queued_page : ℕ → JobPage
queued_page n = record {
  page_number = n;
  status = queued;
  error_code = none;
  error_message = none;
  started_at = none;
  finished_at = none;
}

unfoldable pub prepare_pages : List ℕ → Db → Checked (Unit {0}) × Db
prepare_pages numbers db = elim (lock_running_job db) [
  | stop e ↦ (stop e, db)
  | ok job ↦ (
    ok tt,
    record db {
      job = some (record job {
        total_pages = length numbers;
        pages_processed = 0;
        current_stage = parsing;
      });
      job_pages = map queued_page numbers;
    },
  )
]

abbrev pub is_queued : Status → Bool
is_queued queued = true
is_queued _ = false

abbrev pub start_page : ℕ → ℕ → JobPage → JobPage
start_page now n page =
    if page.page_number == n && is_queued page.status
    then record page { status = processing; started_at = some now }
    else page

-- The pages of the job with this number that are not ended.
abbrev pub is_open : ℕ → JobPage → Bool
is_open n page = page.page_number == n && is_active page.status

abbrev pub event_status : PageEvent → Status
event_status started = processing
event_status page_completed = completed
event_status page_failed = failed

abbrev pub finish_page : ℕ → ℕ → PageEvent → Option PageError → JobPage → JobPage
finish_page now n page_failed error page =
    if is_open n page
    then record page {
      status = failed;
      finished_at = some now;
      error_code = some (elim error [ none ↦ "unknown" | some e ↦ e.code ]);
      error_message = elim error [ none ↦ none | some e ↦ some e.message ];
    }
    else page
finish_page now n event error page =
    if is_open n page
    then record page { status = event_status event; finished_at = some now }
    else page

-- The rows of the job that are being processed, with this change.
abbrev pub of_processing : (Job → Job) → Option Job → Option Job
of_processing f none = none
of_processing f (some job) = if is_processing job.status then some (f job) else some job

abbrev pub is_running : Option Job → Bool
is_running none = false
is_running (some job) = is_processing job.status

abbrev pub end_page : ℕ → ℕ → PageEvent → Option PageError → Db → Db
end_page now n event error db =
    if not (is_running db.job)
    then db
    else let touched = of_processing (λ job. record job { updated_at = now }) db.job in
      record db {
        job =
            if any (is_open n) db.job_pages
            then of_processing
                (λ job. record job { pages_processed = job.pages_processed + 1; updated_at = now })
                touched
            else touched;
        job_pages = map (finish_page now n event error) db.job_pages;
      }

unfoldable pub record_page_event : ℕ → ℕ → PageEvent → Option PageError → Db → Db
record_page_event now n started error db = record db {
  job_pages = map (start_page now n) db.job_pages;
}
record_page_event now n event error db = end_page now n event error db

unfoldable pub mark_failed : Message → Db → Db
mark_failed message db = elim db.job [
  | none ↦ db
  | some job ↦ elim db.document [
    | none ↦ db
    | some document ↦ if is_canceled job.status then db else record db {
      job = some (record job {
        status = failed;
        current_stage = failed_stage;
        error_message = some message;
      });
      document = some (record document { status = failed; error_message = some message });
    }
  ]
]

abbrev pub close_page : ℕ → JobPage → JobPage
close_page now page =
    if is_active page.status
    then record page { status = canceled; finished_at = some now }
    else page

-- A user's cancel: none is the refusal of a job that has ended.
unfoldable pub cancel_document_processing : ℕ → Db → Option Document × Db
cancel_document_processing now db = elim db.document [
  | none ↦ (none, db)
  | some document ↦ elim db.job [
    | none ↦ (none, db)
    | some job ↦
        if not (is_active job.status)
        then (none, db)
        else let after = record document { status = canceled; error_message = none } in
          (
            some after,
            record {
              job = some (record job {
                status = canceled;
                current_stage = canceled_stage;
                updated_at = now;
              });
              document = some after;
              job_pages = map (close_page now) db.job_pages;
              pages = db.pages;
            },
          )
  ]
]
