-- ===== src/Trash/Model.antt =====
-- The rows that a document's deletion reads and writes
-- (packages/yarrow-db/src/yarrow_db/models). Storage keys and task ids are numbers.
use yarrow.Prelude.{ℕ, ◌+◌, String, Bool, false, Option, none, some, List, leb}
use yarrow.Status.{Status}

pub record Document : Type 0 where
  pub id : ℕ
  pub owner_id : ℕ
  pub status : Status
  pub error_message : Option String
  pub file_size_bytes : Option ℕ
  pub storage_key : Option ℕ
  pub client_upload_id : Option ℕ
  pub deleted_at : Option ℕ
  pub updated_at : ℕ

pub record Page : Type 0 where
  pub id : ℕ
  pub document_id : ℕ
  pub page_image_key : Option ℕ
  pub thumbnail_key : Option ℕ

pub record Region : Type 0 where
  pub id : ℕ
  pub page_id : ℕ

pub record RegionImage : Type 0 where
  pub region_id : ℕ
  pub image_key : Option ℕ

pub record Table : Type 0 where
  pub id : ℕ
  pub document_id : ℕ

pub record RegionTable : Type 0 where
  pub id : ℕ
  pub region_id : ℕ
  pub table_id : ℕ

pub record Job : Type 0 where
  pub id : ℕ
  pub document_id : ℕ
  pub status : Status
  pub current_stage : Status
  pub celery_task_id : Option ℕ
  pub updated_at : ℕ

pub record JobPage : Type 0 where
  pub job_id : ℕ
  pub status : Status
  pub finished_at : Option ℕ

pub record User : Type 0 where
  pub id : ℕ
  pub storage_used_bytes : Option ℕ

-- Region texts, table cells, warnings, shares and tags are the numbers of the row that they refer
-- to.
pub record Db : Type 0 where
  pub documents : List Document
  pub pages : List Page
  pub regions : List Region
  pub region_texts : List ℕ
  pub region_images : List RegionImage
  pub region_tables : List RegionTable
  pub tables : List Table
  pub table_cells : List ℕ
  pub warnings : List ℕ
  pub jobs : List Job
  pub job_pages : List JobPage
  pub shares : List ℕ
  pub tags : List ℕ
  pub users : List User

-- Seconds in TRASH_RETENTION_DAYS.
abbrev pub retention : ℕ
retention = 604800

-- `deleted_at <= trash_cutoff(now)`
unfoldable pub is_trash_expired : Option ℕ → ℕ → Bool
is_trash_expired none now = false
is_trash_expired (some deleted_at) now = leb (deleted_at + retention) now
