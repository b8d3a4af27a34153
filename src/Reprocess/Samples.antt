-- ===== src/Reprocess/Samples.antt =====
-- A document of three pages with one completed page, and the theorems applied to it.
use yarrow.Prelude.{◌⊎◌, elem, true, ◌≡◌, refl, none, some, [], ◌∷◌, map, arith}
use yarrow.Status.{processing, failed}
use yarrow.Reprocess.Model.{
  Job, Db, Request, reprocess_document, refusal, already_processing, queue_unavailable, is_running,
  is_interrupted, interrupted, reprocess_scope, pages_to_process, enqueue_job, new_job,
  close_latest, queue_document, restore_failed_document,
}
use yarrow.Reprocess.Pages.{in_run, reprocess_document-covers}
use yarrow.Reprocess.Exclusive.{
  OneActive, reprocess_document-OneActive, reprocess_document_twice, reprocess_document-queue_down,
}

abbrev stuck_job : Job
stuck_job = record {
  id = 1;
  status = processing;
  updated_at = some 10;
  error_message = none;
  total_pages = 3;
  requested_by_id = none;
  retry_of_job_id = none;
  celery_task_id = some 5;
}

-- Its job went silent at 10.
abbrev stuck : Db
stuck = record {
  status = processing;
  error_message = none;
  page_count = some 3;
  jobs = stuck_job ∷ [];
  completed = 2 ∷ [];
}

abbrev request : Request
request = record {
  job_id = 2;
  requested_by_id = some 4;
  retry_of_job_id = some 1;
  task_id = some 6;
}

abbrev unqueued : Request
unqueued = record request { task_id = none }

-- Nothing is committed between the two commits of a request.
abbrev alone : Db → Db
alone db = db

queued_again : (reprocess_document 100 200 alone request stuck).0.pages ≡ some (1 ∷ 3 ∷ [])
unfolding reprocess_document is_running is_interrupted interrupted reprocess_scope pages_to_process
    enqueue_job new_job close_latest queue_document restore_failed_document
queued_again = refl

stuck-OneActive : OneActive stuck.jobs
unfolding OneActive
stuck-OneActive = tt

reprocess_document-OneActive_example :
    OneActive (reprocess_document 100 200 alone request stuck).1.jobs
reprocess_document-OneActive_example =
    reprocess_document-OneActive 100 200 alone request stuck (λ d h. h) stuck-OneActive

accepted : (reprocess_document 100 200 alone request stuck).0.error ≡ none
unfolding reprocess_document is_running is_interrupted interrupted reprocess_scope pages_to_process
    enqueue_job new_job close_latest queue_document restore_failed_document
accepted = refl

reprocess_document_twice_example :
    let after = (reprocess_document 100 200 alone request stuck).1 in
    reprocess_document 100 250 alone unqueued after ≡ (refusal already_processing, after)
reprocess_document_twice_example =
    reprocess_document_twice 100 200 250 alone alone request unqueued stuck (λ d. refl) accepted
      (omega arith)

queue_down : (reprocess_document 100 200 alone unqueued stuck).0.error ≡ some queue_unavailable
unfolding reprocess_document is_running is_interrupted interrupted reprocess_scope pages_to_process
    enqueue_job new_job close_latest queue_document restore_failed_document
queue_down = refl

reprocess_document-queue_down_example :
    let after = (reprocess_document 100 200 alone unqueued stuck).1 in
    (after.status ≡ processing)
    × (after.error_message ≡ none)
    × (after.page_count ≡ some 3)
    × (after.completed ≡ 2 ∷ [])
    × (map (λ (j : Job). j.id) after.jobs ≡ 2 ∷ 1 ∷ [])
    × (map (λ (j : Job). j.status) after.jobs ≡ failed ∷ failed ∷ [])
reprocess_document-queue_down_example =
    reprocess_document-queue_down 100 200 unqueued stuck stuck-OneActive (refl, tt) queue_down

reprocess_document-covers_example :
    (elem 3 stuck.completed ≡ true)
    ⊎ (in_run 3 (reprocess_document 100 200 alone request stuck).0.pages ≡ true)
reprocess_document-covers_example =
    reprocess_document-covers 100 200 alone request stuck 3 3 accepted refl (omega arith)
      (omega arith)
