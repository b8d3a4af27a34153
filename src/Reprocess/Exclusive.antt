-- ===== src/Reprocess/Exclusive.antt =====
-- One run at a time: what `reprocess_document` does to a document's jobs
-- (backend/app/services/reprocess.py).
use yarrow.Prelude.{
  ℕ, ◌+◌, ◌≤◌, ◌≡◌, refl, ap, String, false, Option, none, some, List, [], ◌∷◌, map, ◌==◌, ==_refl,
  if◌then◌else◌, arith, Bool-cases, Option-cases, inl, inr, All, All-map, All-imp,
}
use yarrow.Status.{Status, queued, processing, completed, failed, canceled, other, is_active}
use yarrow.Reprocess.Model.{
  Job, Db, Request, is_interrupted, is_running, reprocess_document, enqueue_job, close_latest,
  queue_document, restore_failed_document, restore_status, restore_message, write_job,
  queue_failed_message, new_job, latest, refusal, already_processing, queue_unavailable,
}

-- Only the latest job may be queued or processing.
unfoldable pub OneActive : List Job → Type 0
OneActive [] = Unit
OneActive (job ∷ older) = All (λ j. is_active j.status ≡ false) older

close_latest-All :
    (now : ℕ) (jobs : List Job)
    → OneActive jobs
    → All (λ j. is_active j.status ≡ false) (close_latest now jobs)
unfolding OneActive close_latest
close_latest-All now [] h = tt
close_latest-All now (job ∷ older) h = elim (Bool-cases (is_active job.status)) [
  | inl active ↦ rw active (refl, h)
  | inr idle ↦ rw idle (idle, h)
]

write_job-All :
    (id : ℕ) (f : Job → Job) (jobs : List Job)
    → ((job : Job) → is_active job.status ≡ false → is_active (f job).status ≡ false)
    → All (λ j. is_active j.status ≡ false) jobs
    → All (λ j. is_active j.status ≡ false) (write_job id f jobs)
write_job-All id f jobs idle h = All-map _ _ jobs (
    All-imp
      (λ job h. elim (Bool-cases (job.id == id)) [
        | inl same ↦ rw same (idle job h)
        | inr differs ↦ rw differs h
      ])
      jobs h)

write_job-OneActive :
    (id : ℕ) (f : Job → Job) (jobs : List Job)
    → ((job : Job) → is_active job.status ≡ false → is_active (f job).status ≡ false)
    → OneActive jobs
    → OneActive (write_job id f jobs)
unfolding OneActive
write_job-OneActive id f [] idle h = tt
write_job-OneActive id f (job ∷ older) idle h = write_job-All id f older idle h

-- Whatever a reprocess request is answered, only the document's latest job can be queued or
-- processing after it, if that held before and what others commit between the two commits of the
-- request keeps it.
pub reprocess_document-OneActive :
    (limit now : ℕ) (meanwhile : Db → Db) (request : Request) (db : Db)
    → ((d : Db) → OneActive d.jobs → OneActive (meanwhile d).jobs)
    → OneActive db.jobs
    → OneActive (reprocess_document limit now meanwhile request db).1.jobs
unfolding reprocess_document
reprocess_document-OneActive limit now meanwhile request db keeps h =
    elim (Bool-cases (is_running limit (latest db.jobs) now)) [
      | inl running ↦ rw running h
      | inr idle ↦
          let queued : (job : Job)
              → OneActive (meanwhile (queue_document job (close_latest now db.jobs) db)).jobs =
            λ job. keeps _ (unfold queue_document OneActive in close_latest-All now db.jobs h) in
          rw idle (elim (Option-cases request.task_id) [
            | inl down ↦ rw down (
                unfold enqueue_job restore_failed_document in
                write_job-OneActive _ _ _ (λ _ _. refl) (queued _))
            | inr (task, up) ↦
                rw up (unfold enqueue_job in write_job-OneActive _ _ _ (λ _ h. h) (queued _))
          ])
    ]

-- Directly after a request that queued a run, with no job of the document changed by others in
-- between, a further request within the limit is refused as already processing and changes nothing.
pub reprocess_document_twice :
    (limit now later : ℕ) (meanwhile meanwhile' : Db → Db) (request request' : Request) (db : Db)
    → ((d : Db) → (meanwhile d).jobs ≡ d.jobs)
    → (reprocess_document limit now meanwhile request db).0.error ≡ none
    → later ≤ now + limit
    → let after = (reprocess_document limit now meanwhile request db).1 in
      reprocess_document limit later meanwhile' request' after ≡ (refusal already_processing, after)
unfolding reprocess_document is_running is_interrupted
reprocess_document_twice limit now later meanwhile meanwhile' request request' db quiet =
    elim (Bool-cases (is_running limit (latest db.jobs) now)) [
      | inl running ↦ rw running (λ h. cc)
      | inr idle ↦ rw idle (elim (Option-cases request.task_id) [
        | inl down ↦ rw down (unfold enqueue_job in λ h. cc)
        | inr (task, up) ↦ rw up (
            unfold enqueue_job in
            rw (quiet (queue_document _ (close_latest now db.jobs) db)) (
              unfold queue_document new_job in
              λ h soon. rw (==_refl request.job_id) (ground arith)))
      ])
    ]

-- Rows that no write meets.
write_job-id :
    (id : ℕ) (f : Job → Job) (jobs : List Job)
    → All (λ (j : Job). (j.id == id) ≡ false) jobs
    → write_job id f jobs ≡ jobs
write_job-id id f [] fresh = refl
write_job-id id f (job ∷ jobs) (differs, fresh) =
    rw differs (ap (λ js. job ∷ js) (write_job-id id f jobs fresh))

close_latest-ids :
    (now id : ℕ) (jobs : List Job)
    → All (λ (j : Job). (j.id == id) ≡ false) jobs
    → All (λ (j : Job). (j.id == id) ≡ false) (close_latest now jobs)
unfolding close_latest
close_latest-ids now id [] h = tt
close_latest-ids now id (job ∷ jobs) (one, h) = elim (Bool-cases (is_active job.status)) [
  | inl active ↦ rw active (one, h)
  | inr idle ↦ rw idle (one, h)
]

restored_status : (previous : Status) → restore_status previous queued ≡ previous
restored_status queued = refl
restored_status processing = refl
restored_status completed = refl
restored_status failed = refl
restored_status canceled = refl
restored_status (other _) = refl

restored_message : (previous : Option String) → restore_message previous none ≡ previous
restored_message none = refl
restored_message (some _) = refl

all_idle :
    (jobs : List Job)
    → All (λ j. is_active j.status ≡ false) jobs
    → map (λ (j : Job). j.status) jobs
      ≡ map (λ (j : Job). if is_active j.status then failed else j.status) jobs
all_idle [] h = refl
all_idle (job ∷ jobs) (idle, h) = rw idle (ap (λ ss. job.status ∷ ss) (all_idle jobs h))

closed_rows :
    (now : ℕ) (jobs : List Job)
    → OneActive jobs
    → (map (λ (j : Job). j.id) (close_latest now jobs) ≡ map (λ (j : Job). j.id) jobs)
      × (map (λ (j : Job). j.status) (close_latest now jobs)
          ≡ map (λ (j : Job). if is_active j.status then failed else j.status) jobs)
unfolding close_latest OneActive
closed_rows now [] h = (refl, refl)
closed_rows now (job ∷ older) h = elim (Bool-cases (is_active job.status)) [
  | inl active ↦ rw active (refl, ap (λ ss. failed ∷ ss) (all_idle older h))
  | inr idle ↦ rw idle (refl, ap (λ ss. job.status ∷ ss) (all_idle older h))
]

-- With a fresh job id, with none but the latest job queued or processing before, and with nothing
-- committed by others between the two commits: when the queue is down, the document's status, error
-- message, number of pages and completed pages are as before the request, its jobs are those from
-- before behind one new job, and that job and each that was queued or processing have failed, while
-- the others have the status they had.
pub reprocess_document-queue_down :
    (limit now : ℕ) (request : Request) (db : Db)
    → OneActive db.jobs
    → All (λ (j : Job). (j.id == request.job_id) ≡ false) db.jobs
    → (reprocess_document limit now (λ d. d) request db).0.error ≡ some queue_unavailable
    → let after = (reprocess_document limit now (λ d. d) request db).1 in
      (after.status ≡ db.status)
      × (after.error_message ≡ db.error_message)
      × (after.page_count ≡ db.page_count)
      × (after.completed ≡ db.completed)
      × (map (λ (j : Job). j.id) after.jobs ≡ request.job_id ∷ map (λ (j : Job). j.id) db.jobs)
      × (map (λ (j : Job). j.status) after.jobs
          ≡ failed ∷ map (λ (j : Job). if is_active j.status then failed else j.status) db.jobs)
unfolding reprocess_document
reprocess_document-queue_down limit now request db alone fresh =
    elim (Bool-cases (is_running limit (latest db.jobs) now)) [
      | inl running ↦ rw running (λ h. cc)
      | inr idle ↦ rw idle (elim (Option-cases request.task_id) [
        | inr (task, up) ↦ rw up (unfold enqueue_job in λ h. cc)
        | inl down ↦
            let (ids, statuses) = closed_rows now db.jobs alone in
            let kept =
              write_job-id request.job_id
                (λ j. record j {
                  status = failed;
                  error_message = some queue_failed_message;
                  updated_at = some now;
                })
                (close_latest now db.jobs) (close_latest-ids now request.job_id db.jobs fresh) in
            rw down (
              unfold enqueue_job restore_failed_document queue_document new_job in
              rw (==_refl request.job_id, kept)
                (λ h. (
                  restored_status db.status,
                  restored_message db.error_message,
                  refl,
                  refl,
                  ap (λ js. request.job_id ∷ js) ids,
                  ap (λ ss. failed ∷ ss) statuses,
                )))
      ])
    ]
