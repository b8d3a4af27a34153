-- ===== src/Ingestion/Post.antt =====
-- What each transaction of a task leaves, exceptions included (worker/app/tasks/ingestion.py).
use yarrow.Prelude.{
  ℕ, ◌≡◌, refl, Bool, true, false, Option, none, some, List, if◌then◌else◌, is_none, arith,
  Bool-cases, inl, inr,
}
use yarrow.Status.{Status, failed, completed, is_canceled, is_processing, is_terminal}
use yarrow.Ingestion.Model.{
  Stage, Message, Job, Document, JobPage, Page, PageError, Db, PageEvent, started, page_completed,
  page_failed, Parsed, job_deleted, job_canceled, all_pages_failed, object_not_found, other_error,
  ok, stop,
}
use yarrow.Ingestion.Ops.{
  lock_running_job, set_stage, start_run, prepare_pages, end_page, record_page_event, mark_failed,
}
use yarrow.Ingestion.Saving.{run_failed, save_results}
use yarrow.Ingestion.Canceled.{job_has, rows_of}
use yarrow.Ingestion.Task.{Fault, missing_object, error, Answer, outside, and_then}
use yarrow.Ingestion.Fair.{has_ended, IsPaired}

-- After an exception that is not marked as a failure, the job has ended; without one, this holds.
unfoldable pub Post : (Db → Type 0) → Answer × Db → Type 0
Post Q (ok _, db) = IsPaired db × Q db
Post Q (stop job_canceled, db) = IsPaired db × (has_ended db ≡ true)
Post Q (stop job_deleted, db) = IsPaired db × (has_ended db ≡ true)
Post Q (stop all_pages_failed, db) = IsPaired db × (has_ended db ≡ true)
Post Q (stop object_not_found, db) = IsPaired db
Post Q (stop (other_error _), db) = IsPaired db

abbrev pub Anything : Db → Type 0
Anything db = Unit

abbrev pub HasEnded : Db → Type 0
HasEnded db = has_ended db ≡ true

pub and_then-Post :
    (P Q : Db → Type 0) (x : Answer × Db) (next : Db → Answer × Db)
    → Post P x
    → ((db : Db) → IsPaired db → P db → Post Q (next db))
    → Post Q (and_then x next)
unfolding Post and_then
and_then-Post P Q (ok _, db) next h k = k db h.0 h.1
and_then-Post P Q (stop job_canceled, db) next h k = h
and_then-Post P Q (stop job_deleted, db) next h k = h
and_then-Post P Q (stop all_pages_failed, db) next h k = h
and_then-Post P Q (stop object_not_found, db) next h k = h
and_then-Post P Q (stop (other_error text), db) next h k = h

pub outside-Post : (o : Option Fault) (db : Db) → IsPaired db → Post Anything (outside o, db)
unfolding Post
outside-Post none db h = (h, tt)
outside-Post (some missing_object) db h = h
outside-Post (some (error text)) db h = h

pub canceled_terminal : (s : Status) → is_canceled s ≡ true → is_terminal s ≡ true
canceled_terminal s h = ground (arith, h)

pub saved_terminal : (bad : Bool) → is_terminal (if bad then failed else completed) ≡ true
saved_terminal true = refl
saved_terminal false = refl

module _ (job_pages : List JobPage) (pages : List Page) where
  pub stage-Post :
      (job : Option Job) (document : Option Document) (stage : Stage)
      → IsPaired (rows_of job_pages pages job document)
      → Post Anything (set_stage stage (rows_of job_pages pages job document))
  unfolding Post set_stage lock_running_job
  stage-Post none document stage h = (h, refl)
  stage-Post (some job) document stage h = elim (Bool-cases (is_canceled job.status)) [
    | inl stopped ↦ rw (stopped, set_stage, Post) (h, canceled_terminal job.status stopped)
    | inr goes_on ↦ rw (goes_on, set_stage, Post) (h, tt)
  ]

  pub prepare-Post :
      (job : Option Job) (document : Option Document) (numbers : List ℕ)
      → IsPaired (rows_of job_pages pages job document)
      → Post Anything (prepare_pages numbers (rows_of job_pages pages job document))
  unfolding Post prepare_pages lock_running_job
  prepare-Post none document numbers h = (h, refl)
  prepare-Post (some job) document numbers h = elim (Bool-cases (is_canceled job.status)) [
    | inl stopped ↦ rw (stopped, prepare_pages, Post) (h, canceled_terminal job.status stopped)
    | inr goes_on ↦ rw (goes_on, prepare_pages, Post) (h, tt)
  ]

  pub save-Post :
      (job : Option Job) (document : Option Document) (now : ℕ) (scope : Option (List ℕ))
      (parsed : Parsed)
      → IsPaired (rows_of job_pages pages job document)
      → Post HasEnded (save_results now scope parsed (rows_of job_pages pages job document))
  unfolding Post save_results lock_running_job
  save-Post none none now scope parsed h = (h, refl)
  save-Post (some job) none now scope parsed h = absurd (cc (h refl))
  save-Post none (some document) now scope parsed h = (h, refl)
  save-Post (some job) (some document) now scope parsed h =
      elim (Bool-cases (is_canceled job.status)) [
        | inl stopped ↦ rw (stopped, save_results, Post) (h, canceled_terminal job.status stopped)
        | inr goes_on ↦
            rw (goes_on, save_results, Post)
              ((λ missing. absurd (cc missing)), saved_terminal (run_failed scope parsed))
      ]

  pub mark-Ended :
      (job : Option Job) (document : Option Document) (message : Message)
      → IsPaired (rows_of job_pages pages job document)
      → has_ended (mark_failed message (rows_of job_pages pages job document)) ≡ true
  unfolding mark_failed
  mark-Ended none document message h = refl
  mark-Ended (some job) none message h = absurd (cc (h refl))
  mark-Ended (some job) (some document) message h = elim (Bool-cases (is_canceled job.status)) [
    | inl stopped ↦ rw stopped (canceled_terminal job.status stopped)
    | inr goes_on ↦ rw goes_on refl
  ]

  pub start-cases :
      (job : Option Job) (document : Option Document)
      → IsPaired (rows_of job_pages pages job document)
      → ((start_run (rows_of job_pages pages job document)).0 ≡ true
          → IsPaired (start_run (rows_of job_pages pages job document)).1)
        × ((start_run (rows_of job_pages pages job document)).0 ≡ false
            → has_ended (start_run (rows_of job_pages pages job document)).1 ≡ true)
  unfolding start_run
  start-cases none document h = ((λ _. h), (λ _. refl))
  start-cases (some job) none h = absurd (cc (h refl))
  start-cases (some job) (some document) h = elim (Bool-cases (is_canceled job.status)) [
    | inl stopped ↦ rw stopped ((λ _. h), (λ _. canceled_terminal job.status stopped))
    | inr goes_on ↦ rw goes_on ((λ _ missing. absurd (cc missing)), (λ never. absurd (cc never)))
  ]

  pub event-IsPaired :
      (job : Option Job) (document : Option Document) (now n : ℕ) (event : PageEvent)
      (problem : Option PageError)
      → IsPaired (rows_of job_pages pages job document)
      → IsPaired (end_page now n event problem (rows_of job_pages pages job document))
  event-IsPaired none document now n event problem h = h
  event-IsPaired (some job) none now n event problem h = absurd (cc (h refl))
  event-IsPaired (some job) (some document) now n event problem h =
      elim (Bool-cases (is_processing job.status)) [
        | inl runs ↦ rw runs (λ missing. absurd (cc missing))
        | inr idle ↦ rw idle h
      ]

pub either-Ended :
    (b : Bool) (x y : Db)
    → (b ≡ true → has_ended x ≡ true)
    → has_ended y ≡ true
    → has_ended (if b then x else y) ≡ true
either-Ended true x y hx hy = hx refl
either-Ended false x y hx hy = hy

pub gone_ended : (db : Db) → is_none db.job ≡ true → has_ended db ≡ true
gone_ended db h = ground (arith, h)

pub canceled_ended : (db : Db) → job_has is_canceled db ≡ true → has_ended db ≡ true
canceled_ended db h = ground (arith, h)

pub report_one-IsPaired :
    (now n : ℕ) (event : PageEvent) (problem : Option PageError) (db : Db)
    → IsPaired db
    → IsPaired (record_page_event now n event problem db)
unfolding record_page_event
report_one-IsPaired now n started problem db h = h
report_one-IsPaired now n page_completed problem db h =
    event-IsPaired db.job_pages db.pages db.job db.document now n page_completed problem h
report_one-IsPaired now n page_failed problem db h =
    event-IsPaired db.job_pages db.pages db.job db.document now n page_failed problem h
