-- ===== src/Ingestion/Saving.antt =====
-- Saving the results of a run (worker/app/tasks/ingestion.py).
use yarrow.Prelude.{
  ℕ, ◌-◌, Bool, not, ◌&&◌, ◌||◌, Option, none, some, List, [], ◌∷◌, ◌++◌, map, ltb, ◌==◌,
  if◌then◌else◌, or_else, length, keep, any, count_of, take,
}
use yarrow.Prelude.Sorting.{sort_by}
use yarrow.Status.{Status, completed, failed, is_completed, is_failed}
use yarrow.Ingestion.Model.{
  finished, failed_stage, Message, summary, Job, Document, JobPage, Page, Db, Parsed, job_deleted,
  Checked, ok, stop,
}
use yarrow.Ingestion.Ops.{in_scope, lock_running_job}

abbrev pub max_reported : ℕ
max_reported = 10

unfoldable pub describe_failed_pages : List ℕ → ℕ → Message
describe_failed_pages numbers total = summary (record {
  failed = length numbers;
  total = total;
  shown = take max_reported numbers;
  more = length numbers - max_reported;
})

abbrev pub summary_of : List ℕ → ℕ → Option Message
summary_of [] total = none
summary_of (n ∷ numbers) total = some (describe_failed_pages (n ∷ numbers) total)

abbrev pub up_to : ℕ → ℕ → Bool
up_to a b = not (ltb b a)

-- The document's status and error from its page rows.
unfoldable pub document_state : List Page → ℕ → Status × Option Message
document_state pages total =
    let bad =
      sort_by up_to
        (map (λ (p : Page). p.page_number) (keep (λ (p : Page). is_failed p.status) pages)) in
    (
      if any (λ (p : Page). is_completed p.status) pages then completed else failed,
      summary_of bad total,
    )

-- `{obj.page_number: obj ...}.get(n)`: the last one.
abbrev pub run_page : ℕ → List Page → Option Page
run_page n [] = none
run_page n (p ∷ pages) = elim (run_page n pages) [
  | some later ↦ some later
  | none ↦ if p.page_number == n then some p else none
]

abbrev pub settle_page : ℕ → List Page → JobPage → JobPage
settle_page now run_pages page = elim (run_page page.page_number run_pages) [
  | none ↦ page
  | some done ↦ record page {
    status = done.status;
    error_code = done.error_code;
    error_message = done.error_message;
    finished_at = some (or_else page.finished_at now);
  }
]

-- `page_count or total_pages`
abbrev pub page_total_of : Option ℕ → ℕ → ℕ
page_total_of none total = total
page_total_of (some n) total = if n == 0 then total else n

abbrev pub attempted_of : Option (List ℕ) → ℕ → ℕ
attempted_of none total = total
attempted_of (some numbers) total = length numbers

-- `bool(attempted) and not succeeded`
abbrev pub run_failed : Option (List ℕ) → Parsed → Bool
run_failed scope parsed =
    let attempted = attempted_of scope parsed.page_total in
    ltb 0 attempted && attempted == length parsed.failed_page_numbers

abbrev pub is_settled : JobPage → Bool
is_settled page = is_completed page.status || is_failed page.status

abbrev pub saved : ℕ → Option (List ℕ) → Parsed → Job → Document → Db → Db
saved now scope parsed job document db =
    let attempted = attempted_of scope parsed.page_total in
    let bad = run_failed scope parsed in
    let kept = keep (λ (p : Page). not (in_scope scope p.page_number)) db.pages in
    let job_pages = map (settle_page now parsed.run_pages) db.job_pages in
    let (status, error) =
      document_state (kept ++ parsed.run_pages)
        (page_total_of document.page_count parsed.page_total) in
    record {
      job = some (record job {
        pages_processed = count_of is_settled job_pages;
        error_message = summary_of parsed.failed_page_numbers attempted;
        current_stage = if bad then failed_stage else finished;
        status = if bad then failed else completed;
      });
      document = some (record document { status = status; error_message = error });
      job_pages = job_pages;
      pages = kept ++ parsed.run_pages;
    }

unfoldable pub save_results : ℕ → Option (List ℕ) → Parsed → Db → Checked (Unit {0}) × Db
save_results now scope parsed db = elim db.document [
  | none ↦ (stop job_deleted, db)
  | some document ↦ elim (lock_running_job db) [
    | stop e ↦ (stop e, db)
    | ok job ↦ (ok tt, saved now scope parsed job document db)
  ]
]
