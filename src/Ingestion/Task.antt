-- ===== src/Ingestion/Task.antt =====
-- The whole task, `process_document_task` (worker/app/tasks/ingestion.py), without the stored
-- objects and the regions of a page. What the store and the parser do is the argument `world`; what
-- others commit before each transaction is the argument `meanwhile`.
use yarrow.Prelude.{ℕ, suc, String, Option, none, some, List, [], ◌∷◌, if◌then◌else◌, is_none}
use yarrow.Status.{is_canceled}
use yarrow.Ingestion.Model.{
  preparing, saving, fault, no_file, PageError, Db, PageEvent, Parsed, job_deleted, job_canceled,
  all_pages_failed, object_not_found, other_error, Checked, ok, stop,
}
use yarrow.Ingestion.Ops.{
  run_page_numbers, set_stage, start_run, prepare_pages, record_page_event, mark_failed,
}
use yarrow.Ingestion.Saving.{run_failed, save_results}
use yarrow.Ingestion.Canceled.{job_has}

pub data Fault : Type 0 where
  missing_object : Fault
  error : String → Fault

pub record Event : Type 0 where
  pub page_number : ℕ
  pub event : PageEvent
  pub error : Option PageError

-- How the download, the loading of the file, the turning of its pages and the reading of them end,
-- the events while they are read, and what is read.
pub record World : Type 0 where
  pub now : ℕ
  pub download : Option Fault
  pub load : Option Fault
  pub orient : Option Fault
  pub read : Option Fault
  pub events : List Event
  pub parsed : Parsed

abbrev pub Answer : Type 0
Answer = Checked (Unit {0})

abbrev pub outside : Option Fault → Answer
outside none = ok tt
outside (some missing_object) = stop object_not_found
outside (some (error text)) = stop (other_error text)

-- The next statement, unless an exception was raised.
unfoldable pub and_then : Answer × Db → (Db → Answer × Db) → Answer × Db
and_then (ok _, db) next = next db
and_then (stop e, db) next = (stop e, db)

module _ (meanwhile : ℕ → Db → Db) (world : World) (scope : Option (List ℕ)) where
  unfoldable pub report : ℕ → List Event → Db → Db
  report turn [] db = db
  report turn (e ∷ events) db =
      report (suc turn) events
        (record_page_event world.now e.page_number e.event e.error (meanwhile turn db))

  unfoldable pub finish_run : Db → Answer × Db
  finish_run db =
      and_then (save_results world.now scope world.parsed (meanwhile 7 db))
        (λ db. (if run_failed scope world.parsed then stop all_pages_failed else ok tt, db))

  unfoldable pub read_pages : Db → Answer × Db
  read_pages db =
      and_then (outside world.read, report 11 world.events db)
        (λ db. and_then (set_stage saving (meanwhile 6 db)) finish_run)

  -- From the download on.
  unfoldable pub run_document : Db → Answer × Db
  run_document db =
      and_then (outside world.download, meanwhile 1 db)
        (λ db.
          and_then (outside world.load, meanwhile 2 db)
            (λ db. and_then (set_stage preparing (meanwhile 3 db)) (λ db.
              and_then (outside world.orient, meanwhile 4 db)
                (λ db.
                  and_then
                    (prepare_pages (run_page_numbers world.parsed.page_total scope)
                      (meanwhile 5 db))
                    read_pages))))

  -- The handlers of the exceptions, each look at the job and each write in a transaction of its own.
  unfoldable pub handle : Answer × Db → Db
  handle (ok _, db) = db
  handle (stop job_canceled, db) = db
  handle (stop job_deleted, db) = db
  handle (stop all_pages_failed, db) = db
  handle (stop object_not_found, db) =
      let seen = meanwhile 8 db in
      if is_none seen.job then seen else mark_failed no_file (meanwhile 10 seen)
  handle (stop (other_error text), db) =
      let seen = meanwhile 8 db in
      let again = meanwhile 9 seen in
      if is_none seen.job
      then seen
      else if job_has is_canceled again
      then again
      else mark_failed (fault text) (meanwhile 10 again)

  unfoldable pub process_document_task : Db → Db
  process_document_task db =
      let (goes_on, started) = start_run (meanwhile 0 db) in
      if goes_on then handle (run_document started) else started
