-- ===== src/Ingestion/Samples.antt =====
-- A file of two pages, one of which cannot be read, and the theorems applied to its run.
use yarrow.Prelude.{ℕ, ◌≤◌, ◌≡◌, refl, Bool, true, none, some, [], ◌∷◌, ◌==◌}
use yarrow.Status.{queued, processing, completed, failed, canceled}
use yarrow.Ingestion.Model.{
  queued_stage, parsing, Job, Document, Db, started, page_completed, page_failed, Parsed,
}
use yarrow.Ingestion.Ops.{
  cancel_document_processing, start_run, prepare_pages, record_page_event, run_page_numbers,
  lock_running_job,
}
use yarrow.Ingestion.Saving.{save_results}
use yarrow.Ingestion.Canceled.{
  starting, preparing, reporting, saving, here, next, canceled_for_good,
}
use yarrow.Ingestion.Pages.{settled}
use yarrow.Ingestion.Counted.{pages_processed_counts}
use yarrow.Ingestion.Task.{World, process_document_task}
use yarrow.Ingestion.Fair.{has_ended, cancels_at, cancels_at-IsFair}
use yarrow.Ingestion.Ends.{process_document_task-Ended}

abbrev job : Job
job = record {
  status = queued;
  current_stage = queued_stage;
  pages_processed = 0;
  total_pages = 0;
  error_message = none;
  updated_at = 0;
}

abbrev document : Document
document = record { status = queued; error_message = none; page_count = none }

abbrev rows : Db
rows = record { job = some job; document = some document; job_pages = []; pages = [] }

abbrev parsed : Parsed
parsed = record {
  page_total = 2;
  run_pages =
      record { page_number = 1; status = completed; error_code = none; error_message = none }
      ∷ record { page_number = 2; status = failed; error_code = some "ocr"; error_message = none }
      ∷ [];
  failed_page_numbers = 2 ∷ [];
}

abbrev world : World
world = record {
  now = 9;
  download = none;
  load = none;
  orient = none;
  read = none;
  events =
      record { page_number = 1; event = started; error = none }
      ∷ record { page_number = 1; event = page_completed; error = none }
      ∷ record { page_number = 2; event = page_failed; error = none }
      ∷ [];
  parsed = parsed;
}

-- A user cancels just before the results are saved.
abbrev late_cancel : ℕ → Bool
late_cancel turn = turn == 7

process_document_task-Ended_example :
    has_ended (process_document_task (cancels_at late_cancel 8) world none rows) ≡ true
process_document_task-Ended_example =
    process_document_task-Ended (cancels_at late_cancel 8) (cancels_at-IsFair late_cancel 8) world
      none rows (λ missing. absurd (cc missing))

abbrev stopped : Db
stopped = (cancel_document_processing 3 rows).1

accepted : (cancel_document_processing 3 rows).0 ≡ some (record document { status = canceled })
unfolding cancel_document_processing
accepted = refl

canceled_for_good_example : (save_results 9 none parsed (start_run stopped).1).1 ≡ stopped
canceled_for_good_example =
    canceled_for_good 3 rows (save_results 9 none parsed (start_run stopped).1).1
      (record document { status = canceled }) accepted
      (next (next here starting) (saving 9 none parsed))

abbrev halfway : Db
halfway =
    record_page_event 9 1 page_completed none
      (prepare_pages (run_page_numbers 2 none) (start_run rows).1).1

abbrev halfway_job : Job
halfway_job = record job {
  status = processing;
  current_stage = parsing;
  pages_processed = 1;
  total_pages = 2;
  updated_at = 9;
}

there : halfway.job ≡ some halfway_job
unfolding record_page_event prepare_pages run_page_numbers start_run lock_running_job
there = refl

pages_processed_counts_example :
    (halfway_job.pages_processed ≡ settled halfway.job_pages)
    × (halfway_job.pages_processed ≤ halfway_job.total_pages)
pages_processed_counts_example =
    pages_processed_counts rows halfway job halfway_job refl refl refl
      (next (next (next here starting) (preparing 2 none)) (reporting 9 1 page_completed none))
      there
