-- ===== src/Progress/Model.antt =====
-- `progress_percent`, `cancel_open_job_pages` and `document_progress` of
-- backend/app/services/job_progress.py, without the texts of the error messages.
use yarrow.Prelude.{
  ℕ, ◌*◌, ◌/◌, String, Bool, false, Option, none, some, List, [], ◌∷◌, map, ◌==◌, if◌then◌else◌,
  ◌&&◌, min, max, or_else, count_of, elem, range_from, ◌+◌,
}
use yarrow.Status.{Status, canceled, other, is_active, is_terminal, is_completed, is_failed}

-- A row of `job_pages`.
pub record JobPage : Type 0 where
  pub job_id : ℕ
  pub page_number : ℕ
  pub status : Status
  pub error_code : Option String
  pub started_at : Option ℕ
  pub finished_at : Option ℕ

-- A row of `pages`, as far as it is selected.
pub record Page : Type 0 where
  pub page_number : ℕ
  pub status : Option Status
  pub error_code : Option String

pub record Job : Type 0 where
  pub id : ℕ
  pub status : Status
  pub current_stage : Option String
  pub total_pages : Option ℕ
  pub updated_at : ℕ

pub record Document : Type 0 where
  pub id : ℕ
  pub status : Status
  pub page_count : Option ℕ

abbrev pub close_page : List ℕ → ℕ → JobPage → JobPage
close_page job_ids now page =
    if elem page.job_id job_ids && is_active page.status
    then record page { status = canceled; finished_at = some now }
    else page

unfoldable pub cancel_open_job_pages : List ℕ → ℕ → List JobPage → List JobPage
cancel_open_job_pages job_ids now = map (close_page job_ids now)

abbrev pub terminal : Option Status → Bool
terminal none = false
terminal (some status) = is_terminal status

unfoldable pub progress_percent : Option Status → ℕ → ℕ → ℕ
progress_percent job_status pages_total pages_finished =
    if terminal job_status
    then 100
    else if pages_total == 0
    then 0
    else min 100 (max 0 ((100 * pages_finished) / pages_total))

pub record PageProgress : Type 0 where
  pub page_number : ℕ
  pub status : Option Status
  pub error_code : Option String
  pub started_at : Option ℕ
  pub finished_at : Option ℕ

-- A status outside PAGE_STATUSES is shown as none.
abbrev pub known : Option Status → Option Status
known (some (other _)) = none
known status = status

unfoldable pub page_progress :
    ℕ → Option Status → Option String → Option ℕ → Option ℕ → PageProgress
page_progress page_number status error_code started_at finished_at = record {
  page_number = page_number;
  status = known status;
  error_code = error_code;
  started_at = started_at;
  finished_at = finished_at;
}

-- `{page.page_number: page for page in pages}`: a later page of the same number wins.
abbrev pub last_live : ℕ → List JobPage → Option JobPage
last_live number [] = none
last_live number (page ∷ pages) = elim (last_live number pages) [
  | some later ↦ some later
  | none ↦ if page.page_number == number then some page else none
]

abbrev pub last_stored : ℕ → List Page → Option Page
last_stored number [] = none
last_stored number (page ∷ pages) = elim (last_stored number pages) [
  | some later ↦ some later
  | none ↦ if page.page_number == number then some page else none
]

abbrev pub active_status : Option Job → Bool
active_status none = false
active_status (some job) = is_active job.status

abbrev pub live_pages : Option Job → List JobPage → List JobPage
live_pages job job_pages = if active_status job then job_pages else []

-- One page of the list: as the running job has it, or else as it is stored.
unfoldable pub one_page : List JobPage → List Page → ℕ → PageProgress
unfolding page_progress
one_page live stored page_number = elim (last_live page_number live) [
  | some page ↦
      page_progress page_number (some page.status) page.error_code page.started_at page.finished_at
  | none ↦ elim (last_stored page_number stored) [
    | some row ↦ page_progress page_number row.status row.error_code none none
    | none ↦ page_progress page_number none none none none
  ]
]

-- `max((page.page_number for page in job_pages), default=0)`
abbrev pub highest : List JobPage → ℕ
highest [] = 0
highest (page ∷ pages) = max page.page_number (highest pages)

abbrev pub total_of : Option Job → ℕ
total_of none = 0
total_of (some job) = or_else job.total_pages 0

abbrev pub status_of : Option Job → Option Status
status_of none = none
status_of (some job) = some job.status

pub record DocumentProgress : Type 0 where
  pub document_id : ℕ
  pub document_status : Status
  pub job_status : Option Status
  pub pages_total : ℕ
  pub pages_completed : ℕ
  pub pages_failed : ℕ
  pub progress_percent : ℕ
  pub pages : List PageProgress

abbrev pub last_page : Document → Option Job → List JobPage → ℕ
last_page document job job_pages =
    max (or_else document.page_count 0) (max (total_of job) (highest job_pages))

-- The latest job of the document, its pages in the order of their numbers, and the stored pages.
unfoldable pub document_progress :
    Document → Option Job → List JobPage → List Page → DocumentProgress
document_progress document job job_pages page_rows =
    let pages_completed = count_of (λ (p : JobPage). is_completed p.status) job_pages in
    let pages_failed = count_of (λ (p : JobPage). is_failed p.status) job_pages in
    record {
      document_id = document.id;
      document_status = document.status;
      job_status = status_of job;
      pages_total = total_of job;
      pages_completed = pages_completed;
      pages_failed = pages_failed;
      progress_percent =
          progress_percent (status_of job) (total_of job) (pages_completed + pages_failed);
      pages =
          map (one_page (live_pages job job_pages) page_rows)
            (range_from 1 (last_page document job job_pages));
    }
