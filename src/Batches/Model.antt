-- ===== src/Batches/Model.antt =====
-- The rows that the announcing of batches reads and writes
-- (packages/yarrow-db/src/yarrow_db/models/{batch,document}.py) and its answers
-- (backend/app/schemas/document.py). Times are seconds. The status of a document may be null.
use yarrow.Prelude.{ℕ, Option, List}
use yarrow.Status.{Status}

pub record Batch : Type 0 where
  pub id : ℕ
  pub owner_id : ℕ
  pub created_at : Option ℕ
  pub sealed_at : Option ℕ
  pub completed_at : Option ℕ
  pub claimed_at : Option ℕ
  pub notified_at : Option ℕ

pub record Document : Type 0 where
  pub batch_id : Option ℕ
  pub status : Option Status
  pub deleted_at : Option ℕ
  pub created_at : Option ℕ

-- BATCH_SEAL_TIMEOUT_SECONDS and BATCH_NOTIFICATION_LEASE_SECONDS.
pub record Settings : Type 0 where
  pub seal_timeout : ℕ
  pub lease : ℕ

pub record Db : Type 0 where
  pub documents : List Document
  pub batches : List Batch

pub record Notification : Type 0 where
  pub batch_id : ℕ
  pub total : ℕ
  pub completed : ℕ
  pub failed : ℕ
  pub canceled : ℕ
  pub created_at : Option ℕ
  pub completed_at : Option ℕ

pub record Notifications : Type 0 where
  pub notifications : List Notification
  pub pending : ℕ

-- How many documents have each status.
pub record Counts : Type 0 where
  pub queued : ℕ
  pub processing : ℕ
  pub completed : ℕ
  pub failed : ℕ
  pub canceled : ℕ

pub record Progress : Type 0 where
  pub batch_id : ℕ
  pub total : ℕ
  pub created_at : Option ℕ
  pub completed_at : Option ℕ
  pub counts : Counts
