-- ===== src/Ingestion/Model.antt =====
-- The rows that a run of the worker reads and writes, of one job and its document
-- (packages/yarrow-db/src/yarrow_db/models/{job,job_page,document,page}.py). The text of a summary
-- of failed pages is kept as the numbers in it. The time that a row gets whenever it is written
-- (`onupdate`) is left out where the code does not set it.
use yarrow.Prelude.{ℕ, String, Option, List}
use yarrow.Status.{Status}

pub data Stage : Type 0 where
  queued_stage downloading preparing parsing saving finished failed_stage canceled_stage : Stage

-- `n of m page(s) failed: 1, 2, ... (+k more)`
pub record Summary : Type 0 where
  pub failed : ℕ
  pub total : ℕ
  pub shown : List ℕ
  pub more : ℕ

pub data Message : Type 0 where
  summary : Summary → Message
  fault : String → Message
  no_file : Message

pub record Job : Type 0 where
  pub status : Status
  pub current_stage : Stage
  pub pages_processed : ℕ
  pub total_pages : ℕ
  pub error_message : Option Message
  pub updated_at : ℕ

pub record Document : Type 0 where
  pub status : Status
  pub error_message : Option Message
  pub page_count : Option ℕ

pub record PageError : Type 0 where
  pub code : String
  pub message : String

pub record JobPage : Type 0 where
  pub page_number : ℕ
  pub status : Status
  pub error_code : Option String
  pub error_message : Option String
  pub started_at : Option ℕ
  pub finished_at : Option ℕ

pub record Page : Type 0 where
  pub page_number : ℕ
  pub status : Status
  pub error_code : Option String
  pub error_message : Option String

pub record Db : Type 0 where
  pub job : Option Job
  pub document : Option Document
  pub job_pages : List JobPage
  pub pages : List Page

pub data PageEvent : Type 0 where
  started page_completed page_failed : PageEvent

-- What the parser made of a file: the pages of this run, those that failed, and how many pages the
-- file has.
pub record Parsed : Type 0 where
  pub page_total : ℕ
  pub run_pages : List Page
  pub failed_page_numbers : List ℕ

-- JobDeletedError, JobCanceledError, AllPagesFailedError, ObjectNotFoundError, and any other.
pub data Stop : Type 0 where
  job_deleted job_canceled all_pages_failed object_not_found : Stop
  other_error : String → Stop

pub data Checked (A : Type 0) : Type 0 where
  ok : A → Checked A
  stop : Stop → Checked A
