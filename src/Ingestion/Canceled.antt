-- ===== src/Ingestion/Canceled.antt =====
-- After a cancel, no transaction of the worker changes anything (worker/app/tasks/ingestion.py).
use yarrow.Prelude.{
  ℕ, ◌≡◌, refl, ap, sym, ◌∙◌, Bool, true, false, Option, none, some, List, [], ◌∷◌, map, ◌==◌,
  subst, All, All-map, everywhere, arith, Bool-cases, inl, inr,
}
use yarrow.Status.{Status, is_active, is_canceled, is_processing}
use yarrow.Ingestion.Model.{
  Stage, Message, Job, Document, PageError, JobPage, Page, Db, PageEvent, started, page_completed,
  page_failed, Parsed, job_canceled, stop,
}
use yarrow.Ingestion.Ops.{
  lock_running_job, set_stage, start_run, prepare_pages, is_queued, start_page, record_page_event,
  mark_failed, cancel_document_processing, close_page, end_page, run_page_numbers,
}
use yarrow.Ingestion.Saving.{save_results}

-- The transactions of a worker on the job, in any order, and further cancels.
pub data Step (db : Db) : Db → Type 0 where
  starting : Step db (start_run db).1
  staging : (stage : Stage) → Step db (set_stage stage db).1
  preparing :
      (page_count : ℕ) (scope : Option (List ℕ))
      → Step db (prepare_pages (run_page_numbers page_count scope) db).1
  reporting :
      (now n : ℕ) (event : PageEvent) (error : Option PageError)
      → Step db (record_page_event now n event error db)
  saving :
      (now : ℕ) (scope : Option (List ℕ)) (parsed : Parsed)
      → Step db (save_results now scope parsed db).1
  failing : (message : Message) → Step db (mark_failed message db)
  canceling : (now : ℕ) → Step db (cancel_document_processing now db).1

pub data Reach (db : Db) : Db → Type 0 where
  here : Reach db db
  next : {mid last : Db} → Reach db mid → Step mid last → Reach db last

-- Whether there is a job, with such a status.
abbrev pub job_has : (Status → Bool) → Db → Bool
job_has test db = elim db.job [ none ↦ false | some job ↦ test job.status ]

unfoldable pub IsCanceled : Db → Type 0
IsCanceled db =
    (job_has is_canceled db ≡ true) × All (λ (p : JobPage). is_active p.status ≡ false) db.job_pages

canceled_idle : (s : Status) → is_canceled s ≡ true → is_active s ≡ false
canceled_idle s h = ground (arith, h)

canceled_not_processing : (s : Status) → is_canceled s ≡ true → is_processing s ≡ false
canceled_not_processing s h = ground (arith, h)

idle_not_queued : (s : Status) → is_active s ≡ false → is_queued s ≡ false
idle_not_queued s h = ground (arith, h)

stage_db :
    (db : Db) (stage : Stage)
    → lock_running_job db ≡ stop job_canceled
    → (set_stage stage db).1 ≡ db
unfolding set_stage
stage_db db stage h = rw (h, set_stage) refl

prepare_db :
    (db : Db) (numbers : List ℕ)
    → lock_running_job db ≡ stop job_canceled
    → (prepare_pages numbers db).1 ≡ db
unfolding prepare_pages
prepare_db db numbers h = rw (h, prepare_pages) refl

module _ (job_pages : List JobPage) (pages : List Page) where
  abbrev pub rows_of : Option Job → Option Document → Db
  rows_of job document = record {
    job = job;
    document = document;
    job_pages = job_pages;
    pages = pages;
  }

  start_canceled :
      (job : Option Job) (document : Option Document)
      → job_has is_canceled (rows_of job document) ≡ true
      → (start_run (rows_of job document)).1 ≡ rows_of job document
  unfolding start_run
  start_canceled none document h = refl
  start_canceled (some job) document h = rw h refl

  lock_canceled :
      (job : Option Job) (document : Option Document)
      → job_has is_canceled (rows_of job document) ≡ true
      → lock_running_job (rows_of job document) ≡ stop job_canceled
  unfolding lock_running_job
  lock_canceled none document h = absurd (cc h)
  lock_canceled (some job) document h = rw h refl

  save_canceled :
      (job : Option Job) (document : Option Document) (now : ℕ) (scope : Option (List ℕ))
      (parsed : Parsed)
      → job_has is_canceled (rows_of job document) ≡ true
      → (save_results now scope parsed (rows_of job document)).1 ≡ rows_of job document
  unfolding save_results
  save_canceled job none now scope parsed h = refl
  save_canceled job (some document) now scope parsed h =
      rw (lock_canceled job (some document) h, save_results) refl

  mark_canceled :
      (job : Option Job) (document : Option Document) (message : Message)
      → job_has is_canceled (rows_of job document) ≡ true
      → mark_failed message (rows_of job document) ≡ rows_of job document
  unfolding mark_failed
  mark_canceled none document message h = refl
  mark_canceled (some job) none message h = refl
  mark_canceled (some job) (some document) message h = rw h refl

  cancel_canceled :
      (job : Option Job) (document : Option Document) (now : ℕ)
      → job_has is_canceled (rows_of job document) ≡ true
      → (cancel_document_processing now (rows_of job document)).1 ≡ rows_of job document
  unfolding cancel_document_processing
  cancel_canceled job none now h = refl
  cancel_canceled none (some document) now h = refl
  cancel_canceled (some job) (some document) now h = rw (canceled_idle job.status h) refl

  end_canceled :
      (job : Option Job) (document : Option Document) (now n : ℕ) (event : PageEvent)
      (error : Option PageError)
      → job_has is_canceled (rows_of job document) ≡ true
      → end_page now n event error (rows_of job document) ≡ rows_of job document
  end_canceled none document now n event error h = refl
  end_canceled (some job) document now n event error h =
      rw (canceled_not_processing job.status h) refl

no_queued :
    (now n : ℕ) (job_pages : List JobPage)
    → All (λ (p : JobPage). is_active p.status ≡ false) job_pages
    → map (start_page now n) job_pages ≡ job_pages
no_queued now n [] h = refl
no_queued now n (p ∷ job_pages) (one, h) =
    let rest = no_queued now n job_pages h in
    let idle : start_page now n p ≡ p = elim (Bool-cases (p.page_number == n)) [
      | inl same ↦ rw (idle_not_queued p.status one, same) refl
      | inr differs ↦ rw (idle_not_queued p.status one, differs) refl
    ] in
    cc (idle, rest)

module _ (db : Db) (h : IsCanceled db) where
  report_canceled :
      (now n : ℕ) (event : PageEvent) (error : Option PageError)
      → record_page_event now n event error db ≡ db
  unfolding record_page_event IsCanceled
  report_canceled now n started error =
      ap (λ pages. record db { job_pages = pages }) (no_queued now n db.job_pages h.1)
  report_canceled now n page_completed error =
      end_canceled db.job_pages db.pages db.job db.document now n page_completed error h.0
  report_canceled now n page_failed error =
      end_canceled db.job_pages db.pages db.job db.document now n page_failed error h.0

  lock_db : lock_running_job db ≡ stop job_canceled
  unfolding IsCanceled
  lock_db = lock_canceled db.job_pages db.pages db.job db.document h.0

Step-canceled : {db after : Db} → Step db after → IsCanceled db → after ≡ db
unfolding IsCanceled
Step-canceled {db} starting h = start_canceled db.job_pages db.pages db.job db.document h.0
Step-canceled {db} (staging stage) h = stage_db db stage (lock_db db h)
Step-canceled {db} (preparing page_count scope) h =
    prepare_db db (run_page_numbers page_count scope) (lock_db db h)
Step-canceled {db} (reporting now n event error) h = report_canceled db h now n event error
Step-canceled {db} (saving now scope parsed) h =
    save_canceled db.job_pages db.pages db.job db.document now scope parsed h.0
Step-canceled {db} (failing message) h =
    mark_canceled db.job_pages db.pages db.job db.document message h.0
Step-canceled {db} (canceling now) h =
    cancel_canceled db.job_pages db.pages db.job db.document now h.0

Reach-canceled : {db last : Db} → Reach db last → IsCanceled db → last ≡ db
Reach-canceled here h = refl
Reach-canceled {db} (next before step) h =
    let same = Reach-canceled before h in Step-canceled step (subst IsCanceled (sym same) h) ∙ same

closed_pages :
    (now : ℕ) (job_pages : List JobPage)
    → All (λ (p : JobPage). is_active p.status ≡ false) (map (close_page now) job_pages)
closed_pages now job_pages =
    All-map _ (close_page now) job_pages (everywhere (λ p. closed p) job_pages)
  where
    closed : (p : JobPage) → is_active (close_page now p).status ≡ false
    closed p = elim (Bool-cases (is_active p.status)) [
      | inl active ↦ rw active refl
      | inr idle ↦ rw idle idle
    ]

cancel-IsCanceled :
    (job_pages : List JobPage) (pages : List Page) (job : Option Job) (document : Option Document)
    (now : ℕ) (answer : Document)
    → (cancel_document_processing now (rows_of job_pages pages job document)).0 ≡ some answer
    → IsCanceled (cancel_document_processing now (rows_of job_pages pages job document)).1
unfolding cancel_document_processing IsCanceled
cancel-IsCanceled job_pages pages job none now answer h = absurd (cc h)
cancel-IsCanceled job_pages pages none (some document) now answer h = absurd (cc h)
cancel-IsCanceled job_pages pages (some job) (some document) now answer h =
    elim (Bool-cases (is_active job.status)) [
      | inl active ↦ rw active (refl, closed_pages now job_pages)
      | inr idle ↦ absurd (cc (rw idle at h))
    ]

-- Once a cancel is accepted, nothing that the worker does changes the job, its pages or the
-- document any more: no result of the run is stored, and no later failure or cancel shows.
pub canceled_for_good :
    (now : ℕ) (db last : Db) (document : Document)
    → (cancel_document_processing now db).0 ≡ some document
    → Reach (cancel_document_processing now db).1 last
    → last ≡ (cancel_document_processing now db).1
canceled_for_good now db last document accepted run =
    Reach-canceled run
      (cancel-IsCanceled db.job_pages db.pages db.job db.document now document accepted)
