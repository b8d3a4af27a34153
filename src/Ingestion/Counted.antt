-- ===== src/Ingestion/Counted.antt =====
-- The count of a job's pages that have ended (worker/app/tasks/ingestion.py).
use yarrow.Prelude.{
  ℕ, ◌≤◌, ◌≡◌, refl, sym, ◌∙◌, subst, subst₂, true, Option, none, some, List, [], map, length, any,
  keep, count_of-le, length-map, range_from, arith, Bool-cases, inl, inr,
}
use yarrow.Status.{canceled, is_active, is_canceled, is_processing}
use yarrow.Ingestion.Model.{
  Stage, canceled_stage, Message, Job, Document, PageError, JobPage, Page, Db, PageEvent, started,
  page_completed, page_failed, Parsed,
}
use yarrow.Ingestion.Ops.{
  lock_running_job, set_stage, start_run, queued_page, prepare_pages, start_page, is_open,
  finish_page, end_page, record_page_event, mark_failed, in_scope, cancel_document_processing,
  close_page, run_page_numbers,
}
use yarrow.Ingestion.Saving.{save_results, is_settled, settle_page}
use yarrow.Ingestion.Canceled.{
  Step, starting, staging, preparing, reporting, saving, failing, canceling, rows_of, Reach, here,
  next,
}
use yarrow.Ingestion.Pages.{
  settled, Distinct, map-Distinct, ends, settled-finish_page, finish_number, settled-map,
  start_settled, close_settled, settle_number, queued_settled, queued-Distinct,
}

-- The job counts the pages that have ended, has one row for each page, and no more rows than pages.
unfoldable pub IsCounted : Option Job → List JobPage → Type 0
IsCounted none pages = Unit
IsCounted (some job) pages =
    (job.pages_processed ≡ settled pages) × (length pages ≤ job.total_pages) × Distinct pages

-- A change of rows that keeps their numbers and settles none keeps the count.
map-IsCounted :
    (f : JobPage → JobPage) (job : Option Job) (pages : List JobPage)
    → ((p : JobPage) → (is_settled (f p) ≡ is_settled p) × ((f p).page_number ≡ p.page_number))
    → IsCounted job pages
    → IsCounted job (map f pages)
unfolding IsCounted
map-IsCounted f none pages same h = tt
map-IsCounted f (some job) pages same h = (
  h.0 ∙ sym (settled-map f pages (λ p. (same p).0)),
  rw (length-map f pages) h.1,
  map-Distinct f (λ p. (same p).1) pages h.2,
)

module _ (job_pages : List JobPage) (pages : List Page) where
  start-IsCounted :
      (job : Option Job) (document : Option Document)
      → IsCounted job job_pages
      → IsCounted
          (start_run (rows_of job_pages pages job document)).1.job
          (start_run (rows_of job_pages pages job document)).1.job_pages
  unfolding start_run IsCounted
  start-IsCounted none document h = h
  start-IsCounted (some job) none h = elim (Bool-cases (is_canceled job.status)) [
    | inl stopped ↦ rw stopped h
    | inr goes_on ↦ rw goes_on h
  ]
  start-IsCounted (some job) (some document) h = elim (Bool-cases (is_canceled job.status)) [
    | inl stopped ↦ rw stopped h
    | inr goes_on ↦ rw goes_on h
  ]

  stage-IsCounted :
      (job : Option Job) (document : Option Document) (stage : Stage)
      → IsCounted job job_pages
      → IsCounted
          (set_stage stage (rows_of job_pages pages job document)).1.job
          (set_stage stage (rows_of job_pages pages job document)).1.job_pages
  unfolding set_stage lock_running_job IsCounted
  stage-IsCounted none document stage h = h
  stage-IsCounted (some job) document stage h = elim (Bool-cases (is_canceled job.status)) [
    | inl stopped ↦ rw (stopped, set_stage, IsCounted) h
    | inr goes_on ↦ rw (goes_on, set_stage, IsCounted) h
  ]

  prepare-IsCounted :
      (job : Option Job) (document : Option Document) (page_count : ℕ) (scope : Option (List ℕ))
      → IsCounted job job_pages
      → (let db =
            (prepare_pages
              (run_page_numbers page_count scope)
              (rows_of job_pages pages job document)).1 in
          IsCounted db.job db.job_pages)
  unfolding prepare_pages lock_running_job IsCounted run_page_numbers
  prepare-IsCounted none document page_count scope h = h
  prepare-IsCounted (some job) document page_count scope h =
      elim (Bool-cases (is_canceled job.status)) [
        | inl stopped ↦ rw (stopped, prepare_pages, IsCounted) h
        | inr goes_on ↦
            let numbers = keep (in_scope scope) (range_from 1 page_count) in
            rw (goes_on, prepare_pages, IsCounted)
              (
                sym (queued_settled numbers),
                omega (arith, length-map queued_page numbers),
                queued-Distinct (in_scope scope) 1 page_count,
              )
      ]

  mark-IsCounted :
      (job : Option Job) (document : Option Document) (message : Message)
      → IsCounted job job_pages
      → IsCounted
          (mark_failed message (rows_of job_pages pages job document)).job
          (mark_failed message (rows_of job_pages pages job document)).job_pages
  unfolding mark_failed IsCounted
  mark-IsCounted none document message h = h
  mark-IsCounted (some job) none message h = h
  mark-IsCounted (some job) (some document) message h = elim (Bool-cases (is_canceled job.status)) [
    | inl stopped ↦ rw stopped h
    | inr goes_on ↦ rw goes_on h
  ]

  canceled_job :
      (job : Job) (now : ℕ) (rows : List JobPage)
      → IsCounted (some job) rows
      → IsCounted
          (some
            (record job { status = canceled; current_stage = canceled_stage; updated_at = now }))
          rows
  unfolding IsCounted
  canceled_job job now rows h = h

  cancel-IsCounted :
      (job : Option Job) (document : Option Document) (now : ℕ)
      → IsCounted job job_pages
      → (let db = (cancel_document_processing now (rows_of job_pages pages job document)).1 in
          IsCounted db.job db.job_pages)
  unfolding cancel_document_processing
  cancel-IsCounted job none now h = h
  cancel-IsCounted none (some document) now h = h
  cancel-IsCounted (some job) (some document) now h = elim (Bool-cases (is_active job.status)) [
    | inl active ↦ rw active (
        canceled_job job now _
          (map-IsCounted (close_page now) (some job) job_pages (close_settled now) h))
    | inr idle ↦ rw idle h
  ]

  save-IsCounted :
      (job : Option Job) (document : Option Document) (now : ℕ) (scope : Option (List ℕ))
      (parsed : Parsed)
      → IsCounted job job_pages
      → (let db = (save_results now scope parsed (rows_of job_pages pages job document)).1 in
          IsCounted db.job db.job_pages)
  unfolding save_results lock_running_job IsCounted
  save-IsCounted job none now scope parsed h = h
  save-IsCounted none (some document) now scope parsed h = h
  save-IsCounted (some job) (some document) now scope parsed h =
      elim (Bool-cases (is_canceled job.status)) [
        | inl stopped ↦ rw (stopped, save_results, IsCounted) h
        | inr goes_on ↦
            rw (goes_on, save_results, IsCounted)
              (
                refl,
                rw (length-map (settle_page now parsed.run_pages) job_pages) h.1,
                map-Distinct (settle_page now parsed.run_pages) (settle_number now parsed.run_pages)
                    job_pages h.2,
              )
      ]

  end-IsCounted :
      (job : Option Job) (document : Option Document) (now n : ℕ) (event : PageEvent)
      (error : Option PageError)
      → ends event ≡ true
      → IsCounted job job_pages
      → (let db = end_page now n event error (rows_of job_pages pages job document) in
          IsCounted db.job db.job_pages)
  unfolding IsCounted
  end-IsCounted none document now n event error e h = h
  end-IsCounted (some job) document now n event error e h =
      elim (Bool-cases (is_processing job.status)) [
        | inr idle ↦ rw idle h
        | inl runs ↦
            let counted = settled-finish_page now n error event job_pages e h.2 in
            let rows =
              map-Distinct (finish_page now n event error) (finish_number now n error event)
                job_pages h.2 in
            let many = length-map (finish_page now n event error) job_pages in
            elim (Bool-cases (any (is_open n) job_pages)) [
              | inl some_open ↦
                  let one_more = rw some_open at counted in
                  rw (runs, some_open, runs) (omega (arith, h.0, one_more), rw many h.1, rows)
              | inr nobody ↦
                  let as_many = rw nobody at counted in
                  rw (runs, nobody) (omega (arith, h.0, as_many), rw many h.1, rows)
            ]
      ]

Step-IsCounted :
    {db after : Db}
    → Step db after
    → IsCounted db.job db.job_pages
    → IsCounted after.job after.job_pages
unfolding record_page_event
Step-IsCounted {db} starting h = start-IsCounted db.job_pages db.pages db.job db.document h
Step-IsCounted {db} (staging stage) h =
    stage-IsCounted db.job_pages db.pages db.job db.document stage h
Step-IsCounted {db} (preparing page_count scope) h =
    prepare-IsCounted db.job_pages db.pages db.job db.document page_count scope h
Step-IsCounted {db} (reporting now n started error) h =
    map-IsCounted (start_page now n) db.job db.job_pages (start_settled now n) h
Step-IsCounted {db} (reporting now n page_completed error) h =
    end-IsCounted db.job_pages db.pages db.job db.document now n page_completed error refl h
Step-IsCounted {db} (reporting now n page_failed error) h =
    end-IsCounted db.job_pages db.pages db.job db.document now n page_failed error refl h
Step-IsCounted {db} (saving now scope parsed) h =
    save-IsCounted db.job_pages db.pages db.job db.document now scope parsed h
Step-IsCounted {db} (failing message) h =
    mark-IsCounted db.job_pages db.pages db.job db.document message h
Step-IsCounted {db} (canceling now) h =
    cancel-IsCounted db.job_pages db.pages db.job db.document now h

Reach-IsCounted :
    {db last : Db}
    → Reach db last
    → IsCounted db.job db.job_pages
    → IsCounted last.job last.job_pages
Reach-IsCounted here h = h
Reach-IsCounted (next before step) h = Step-IsCounted step (Reach-IsCounted before h)

-- From a job that has no page rows yet, every sequence of transactions of the worker and of cancels
-- leads to rows in which the job counts exactly its completed and failed pages, and never more of
-- them than it has pages.
pub pages_processed_counts :
    (db last : Db) (first job : Job)
    → db.job ≡ some first
    → db.job_pages ≡ []
    → first.pages_processed ≡ 0
    → Reach db last
    → last.job ≡ some job
    → (job.pages_processed ≡ settled last.job_pages) × (job.pages_processed ≤ job.total_pages)
unfolding IsCounted Distinct
pages_processed_counts db last first job begins no_pages nothing run there =
    let start : IsCounted db.job db.job_pages =
      subst₂ IsCounted (sym begins) (sym no_pages) (nothing, omega arith, tt) in
    let counted = subst (λ o. IsCounted o last.job_pages) there (Reach-IsCounted run start) in
    (counted.0, omega (arith, counted.0, counted.1, count_of-le is_settled last.job_pages))
