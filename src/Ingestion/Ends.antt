-- ===== src/Ingestion/Ends.antt =====
-- A task that ends leaves its job ended (worker/app/tasks/ingestion.py).
use yarrow.Prelude.{
  ℕ, suc, ◌≡◌, Bool, true, false, Option, List, [], ◌∷◌, if◌then◌else◌, is_none, Bool-cases, inl,
  inr,
}
use yarrow.Status.{is_canceled}
use yarrow.Ingestion.Model.{
  Stage, preparing, saving, fault, no_file, Db, job_deleted, job_canceled, all_pages_failed,
  object_not_found, other_error, ok, stop,
}
use yarrow.Ingestion.Ops.{run_page_numbers, set_stage, start_run, prepare_pages}
use yarrow.Ingestion.Saving.{run_failed}
use yarrow.Ingestion.Canceled.{job_has}
use yarrow.Ingestion.Task.{
  Event, World, Answer, report, finish_run, read_pages, run_document, handle, process_document_task,
}
use yarrow.Ingestion.Fair.{has_ended, IsPaired, IsFair}
use yarrow.Ingestion.Post.{
  Anything, HasEnded, Post, and_then-Post, canceled_ended, either-Ended, gone_ended, mark-Ended,
  outside-Post, prepare-Post, report_one-IsPaired, save-Post, stage-Post, start-cases,
}

module _ (meanwhile : ℕ → Db → Db) (fair : IsFair meanwhile) (world : World)
    (scope : Option (List ℕ)) where
  report-IsPaired :
      (turn : ℕ) (events : List Event) (db : Db)
      → IsPaired db
      → IsPaired (report meanwhile world scope turn events db)
  unfolding report
  report-IsPaired turn [] db h = h
  report-IsPaired turn (e ∷ events) db h =
      report-IsPaired (suc turn) events _
        (report_one-IsPaired world.now e.page_number e.event e.error _ (fair.paired turn db h))

  ends_run :
      (db : Db) (bad : Bool)
      → IsPaired db
      → has_ended db ≡ true
      → Post HasEnded (if bad then stop all_pages_failed else ok tt, db)
  unfolding Post
  ends_run db true h ended = (h, ended)
  ends_run db false h ended = (h, ended)

  staged :
      (turn : ℕ) (db : Db) (stage : Stage)
      → IsPaired db
      → Post Anything (set_stage stage (meanwhile turn db))
  staged turn db stage h =
      let found = meanwhile turn db in
      stage-Post found.job_pages found.pages found.job found.document stage (fair.paired turn db h)

  prepared :
      (db : Db)
      → IsPaired db
      → Post Anything
          (prepare_pages (run_page_numbers world.parsed.page_total scope) (meanwhile 5 db))
  prepared db h =
      let found = meanwhile 5 db in
      prepare-Post found.job_pages found.pages found.job found.document _ (fair.paired 5 db h)

  finish-Post : (db : Db) → IsPaired db → Post HasEnded (finish_run meanwhile world scope db)
  unfolding finish_run
  finish-Post db h =
      let found = meanwhile 7 db in
      and_then-Post HasEnded HasEnded _ _
        (save-Post found.job_pages found.pages found.job found.document world.now scope world.parsed
          (fair.paired 7 db h))
        (λ db h ended. ends_run db (run_failed scope world.parsed) h ended)

  run-Post : (db : Db) → IsPaired db → Post HasEnded (run_document meanwhile world scope db)
  unfolding run_document read_pages
  run-Post db h =
      and_then-Post Anything HasEnded _ _ (outside-Post world.download _ (fair.paired 1 db h))
        (λ db h _.
          and_then-Post Anything HasEnded _ _ (outside-Post world.load _ (fair.paired 2 db h))
            (λ db h _. and_then-Post Anything HasEnded _ _ (staged 3 db preparing h) (λ db h _.
              and_then-Post Anything HasEnded _ _ (outside-Post world.orient _ (fair.paired 4 db h))
                (λ db h _. and_then-Post Anything HasEnded _ _ (prepared db h) (λ db h _.
                  and_then-Post Anything HasEnded _ _
                    (outside-Post world.read _ (report-IsPaired 11 world.events db h))
                    (λ db h _.
                      and_then-Post Anything HasEnded _ _ (staged 6 db saving h)
                        (λ db h _. finish-Post db h)))))))

  handle-Ended :
      (x : Answer × Db) → Post HasEnded x → has_ended (handle meanwhile world scope x) ≡ true
  unfolding handle Post
  handle-Ended (ok _, db) h = h.1
  handle-Ended (stop job_canceled, db) h = h.1
  handle-Ended (stop job_deleted, db) h = h.1
  handle-Ended (stop all_pages_failed, db) h = h.1
  handle-Ended (stop object_not_found, db) h =
      let seen = meanwhile 8 db in
      let last = meanwhile 10 seen in
      either-Ended (is_none seen.job) seen _ (gone_ended seen) (
        mark-Ended last.job_pages last.pages last.job last.document no_file
          (fair.paired 10 seen (fair.paired 8 db h)))
  handle-Ended (stop (other_error text), db) h =
      let seen = meanwhile 8 db in
      let again = meanwhile 9 seen in
      let last = meanwhile 10 again in
      either-Ended (is_none seen.job) seen _ (gone_ended seen) (
        either-Ended (job_has is_canceled again) again _ (canceled_ended again) (
          mark-Ended last.job_pages last.pages last.job last.document (fault text)
            (fair.paired 10 again (fair.paired 9 seen (fair.paired 8 db h)))))

  -- However a task goes, when it is over its job is gone, completed, failed or canceled: it is not left
  -- queued or processing. Others may cancel and delete meanwhile.
  pub process_document_task-Ended :
      (db : Db) → IsPaired db → has_ended (process_document_task meanwhile world scope db) ≡ true
  unfolding process_document_task
  process_document_task-Ended db h =
      let found = meanwhile 0 db in
      let (goes, stays) =
        start-cases found.job_pages found.pages found.job found.document (fair.paired 0 db h) in
      elim (Bool-cases (start_run found).0) [
        | inl goes_on ↦ rw goes_on (handle-Ended _ (run-Post _ (goes goes_on)))
        | inr stops ↦ rw stops (stays stops)
      ]
