-- ===== src/Status.antt =====
-- The status vocabulary that documents, jobs, pages and upload sessions share
-- (packages/yarrow-db/src/yarrow_db/models/{document,job,job_page,upload_session}.py).
use yarrow.Prelude.{String, Bool, true, false}

-- The columns are strings: `other` is a value outside the vocabulary.
pub data Status : Type 0 where
  queued processing completed failed canceled : Status
  other : String → Status

-- `status in ("queued", "processing")`: ACTIVE_JOB_STATUSES, ACTIVE_JOB_STATES, OPEN_PAGE_STATUSES
-- and _UNFINISHED_JOB_STATES.
abbrev pub is_active : Status → Bool
is_active queued = true
is_active processing = true
is_active _ = false

-- `status in ("completed", "failed", "canceled")`: TERMINAL_JOB_STATUSES and FINAL_STATUSES.
abbrev pub is_terminal : Status → Bool
is_terminal completed = true
is_terminal failed = true
is_terminal canceled = true
is_terminal _ = false

abbrev pub is_processing : Status → Bool
is_processing processing = true
is_processing _ = false

abbrev pub is_completed : Status → Bool
is_completed completed = true
is_completed _ = false

abbrev pub is_failed : Status → Bool
is_failed failed = true
is_failed _ = false

abbrev pub is_canceled : Status → Bool
is_canceled canceled = true
is_canceled _ = false
