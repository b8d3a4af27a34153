-- ===== src/Progress/Pages.antt =====
-- The pages that the progress lists, and canceling a job's open pages
-- (backend/app/services/job_progress.py).
use yarrow.Prelude.{
  ℕ, ◌≤◌, ◌≡◌, refl, Bool, true, false, Option, List, [], ◌∷◌, map, arith, max, count_of,
  range_from, Bool-cases, inl, inr, suc, zero, Option-cases, elem, All, ◌&&◌,
}
use yarrow.Status.{
  Status, is_active, is_completed, is_failed, queued, processing, completed, failed, canceled,
  other,
}
use yarrow.Progress.Model.{
  JobPage, Page, Job, Document, document_progress, cancel_open_job_pages, close_page, page_progress,
  PageProgress, one_page, last_page, live_pages, last_live, last_stored, total_of, highest,
}

one_page_number :
    (live : List JobPage) (stored : List Page) (n : ℕ) → (one_page live stored n).page_number ≡ n
unfolding one_page page_progress
one_page_number live stored n = elim (Option-cases (last_live n live)) [
  | inr (page, found) ↦ rw (found, one_page) refl
  | inl missing ↦
      rw (missing, one_page)
        (elim (Option-cases (last_stored n stored)) [
          | inr (row, there) ↦ rw (there, one_page) refl
          | inl absent ↦ rw (absent, one_page) refl
        ])
]

numbers :
    (live : List JobPage) (stored : List Page) (first count : ℕ)
    → map
        (λ (p : PageProgress). p.page_number)
        (map (one_page live stored) (range_from first count))
      ≡ range_from first count
numbers live stored first zero = refl
numbers live stored first (suc count) =
    cc (one_page_number live stored first, numbers live stored (suc first) count)

below-All :
    (pages : List JobPage) (m n : ℕ)
    → m ≤ n
    → All (λ (p : JobPage). p.page_number ≤ m) pages
    → All (λ (p : JobPage). p.page_number ≤ n) pages
below-All [] m n h all = tt
below-All (p ∷ pages) m n h (one, all) = (omega arith, below-All pages m n h all)

highest-le : (pages : List JobPage) → All (λ (p : JobPage). p.page_number ≤ highest pages) pages
highest-le [] = tt
highest-le (p ∷ pages) = (
  omega arith,
  below-All pages (highest pages) (max p.page_number (highest pages)) (omega arith)
      (highest-le pages),
)

-- The progress of a document lists the pages 1, 2, ... up to its last page, each once, and every
-- page of the job is among them, whatever is stored.
pub document_progress-pages :
    (document : Document) (job : Option Job) (job_pages : List JobPage) (page_rows : List Page)
    → (last : ℕ) × (map
          (λ (p : PageProgress). p.page_number)
          (document_progress document job job_pages page_rows).pages
        ≡ range_from 1 last)
      × All (λ (p : JobPage). p.page_number ≤ last) job_pages
      × (total_of job ≤ last)
unfolding document_progress
document_progress-pages document job job_pages page_rows = (
  last_page document job job_pages,
  numbers (live_pages job job_pages) page_rows 1 (last_page document job job_pages),
  below-All job_pages (highest job_pages) (last_page document job job_pages) (omega arith)
      (highest-le job_pages),
  omega arith,
)

is_active_lem : (s : Status) → is_active s ≡ true → (is_completed s ≡ false) × (is_failed s ≡ false)
is_active_lem queued h = (refl, refl)
is_active_lem processing h = (refl, refl)
is_active_lem completed h = cc
is_active_lem failed h = cc
is_active_lem canceled h = (refl, refl)
is_active_lem (other _) h = (refl, refl)

module _ (job_ids : List ℕ) (now : ℕ) where
  -- The open pages of a job.
  abbrev open_of : JobPage → Bool
  open_of p = elem p.job_id job_ids && is_active p.status

  closed : (p : JobPage) → open_of (close_page job_ids now p) ≡ false
  closed p = elim (Bool-cases (open_of p)) [
    | inl active ↦ rw active (ground arith)
    | inr idle ↦ rw (idle, close_page) idle
  ]

  unfinished :
      (p : JobPage)
      → (is_completed (close_page job_ids now p).status ≡ is_completed p.status)
        × (is_failed (close_page job_ids now p).status ≡ is_failed p.status)
  unfinished p = elim (Bool-cases (open_of p)) [
    | inl active ↦ rw active (ground (arith, is_active_lem p.status))
    | inr idle ↦ rw (idle, close_page) (refl, refl)
  ]

  -- Canceling the open pages of some jobs leaves none of them open, and leaves as many completed
  -- and as many failed pages as there were.
  cancel_open_job_pages_lem :
      (pages : List JobPage)
      → (count_of open_of (cancel_open_job_pages job_ids now pages) ≡ 0)
        × (count_of
              (λ (p : JobPage). is_completed p.status)
              (cancel_open_job_pages job_ids now pages)
            ≡ count_of (λ (p : JobPage). is_completed p.status) pages)
        × (count_of (λ (p : JobPage). is_failed p.status) (cancel_open_job_pages job_ids now pages)
            ≡ count_of (λ (p : JobPage). is_failed p.status) pages)
  unfolding cancel_open_job_pages
  cancel_open_job_pages_lem [] = (refl, refl, refl)
  cancel_open_job_pages_lem (p ∷ pages) =
      ground (arith, closed p, unfinished p, cancel_open_job_pages_lem pages)
