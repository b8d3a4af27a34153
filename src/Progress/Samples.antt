-- ===== src/Progress/Samples.antt =====
-- A job with three of its four pages recorded, and the theorems applied to it.
use yarrow.Prelude.{ℕ, ◌≡◌, refl, true, none, some, List, [], ◌∷◌, map, All, range_from, ◌≤◌, ◌<◌}
use yarrow.Status.{completed, processing, failed}
use yarrow.Progress.Model.{
  Job, JobPage, Document, PageProgress, terminal, total_of, document_progress, progress_percent,
}
use yarrow.Progress.Percent.{progress_percent-bounds}
use yarrow.Progress.Pages.{document_progress-pages}

abbrev recorded : List JobPage
recorded =
    record {
      job_id = 7;
      page_number = 1;
      status = completed;
      error_code = none;
      started_at = some 1;
      finished_at = some 2;
    }
    ∷ record {
      job_id = 7;
      page_number = 2;
      status = failed;
      error_code = some "OCR_FAILED";
      started_at = some 2;
      finished_at = some 3;
    }
    ∷ record {
      job_id = 7;
      page_number = 3;
      status = processing;
      error_code = none;
      started_at = some 3;
      finished_at = none;
    }
    ∷ []

abbrev job : Job
job = record {
  id = 7;
  status = processing;
  current_stage = some "parsing";
  total_pages = some 4;
  updated_at = 3;
}

abbrev document : Document
document = record { id = 1; status = processing; page_count = none }

half_way : (document_progress document (some job) recorded []).progress_percent ≡ 50
unfolding document_progress progress_percent
half_way = refl

progress_percent-bounds_example :
    (progress_percent (some processing) 4 2 ≤ 100)
    × (progress_percent (some processing) 4 2 ≤ progress_percent (some processing) 4 3)
    × (terminal (some processing) ≡ true → progress_percent (some processing) 4 2 ≡ 100)
    × (0 < 4 → 4 ≤ 2 → progress_percent (some processing) 4 2 ≡ 100)
progress_percent-bounds_example = progress_percent-bounds (some processing) 4 2 1

document_progress-pages_example :
    (last : ℕ) × (map
        (λ (p : PageProgress). p.page_number)
        (document_progress document (some job) recorded []).pages
      ≡ range_from 1 last)
    × All (λ (p : JobPage). p.page_number ≤ last) recorded
    × (total_of (some job) ≤ last)
document_progress-pages_example = document_progress-pages document (some job) recorded []
