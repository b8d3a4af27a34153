-- ===== src/Uploads/Model.antt =====
-- The rows, objects and settings that a request on one resumable upload reads and writes
-- (packages/yarrow-db/src/yarrow_db/models/upload_session.py,
-- backend/app/services/upload_sessions.py).
use yarrow.Prelude.{
  ℕ, ◌+◌, ◌/◌, ◌^◌, String, Bool, true, false, Option, none, some, List, leb, ◌==◌, if◌then◌else◌,
}
use yarrow.Status.{Status}

pub record Settings : Type 0 where
  pub storage_quota_bytes : ℕ
  pub max_upload_bytes : ℕ
  pub session_ttl : ℕ

abbrev pub Bytes : Type 0
Bytes = List ℕ

-- hashlib.sha256 (a digest is the number that its 64 hex digits spell), and filetype.guess, which
-- gives a file's extension from its first bytes. Neither is in the repository.
pub record Externals : Type 0 where
  pub sha256 : Bytes → ℕ
  pub guess : Bytes → Option String

pub record Upload : Type 0 where
  pub id : ℕ
  pub owner_id : ℕ
  pub filename : String
  pub total_size_bytes : ℕ
  pub chunk_size_bytes : ℕ
  pub chunk_count : ℕ
  pub expected_sha256 : Option ℕ
  pub file_sha256 : Option ℕ
  pub batch_id : Option ℕ
  pub status : Status
  pub error_message : Option String
  pub document_id : Option ℕ
  pub expires_at : ℕ

-- Keys of stored objects. `chunk_key` keeps the first 16 of a digest's 64 hex digits.
pub data Key : Type 0 where
  chunk_object : ℕ → ℕ → ℕ → Key
  document_object : ℕ → Key

abbrev pub same_key : Key → Key → Bool
same_key (chunk_object s i p) (chunk_object t j q) = elim (s == t) [
  | true ↦ elim (i == j) [ true ↦ p == q | false ↦ false ]
  | false ↦ false
]
same_key (document_object a) (document_object b) = a == b
same_key _ _ = false

unfoldable pub chunk_key : ℕ → ℕ → ℕ → Key
chunk_key session_id index sha256 = chunk_object session_id index (sha256 / 2 ^ 192)

pub record Chunk : Type 0 where
  pub chunk_index : ℕ
  pub size_bytes : ℕ
  pub sha256 : ℕ
  pub storage_key : Key

pub record Document : Type 0 where
  pub id : ℕ
  pub owner_id : ℕ
  pub filename : String
  pub file_size_bytes : ℕ
  pub content_sha256 : Option ℕ
  pub storage_key : Key
  pub batch_id : Option ℕ
  pub status : Status
  pub error_message : Option String
  pub trashed : Bool

pub record Job : Type 0 where
  pub id : ℕ
  pub document_id : ℕ
  pub status : Status
  pub error_message : Option String
  pub task_id : Option ℕ

pub record Batch : Type 0 where
  pub id : ℕ
  pub owner_id : ℕ
  pub completed_at : Option ℕ
  pub sealed_at : Option ℕ
  pub claimed_at : Option ℕ

-- The named session's row and its chunk rows, and what its requests share with others.
pub record Db : Type 0 where
  pub upload : Option Upload
  pub chunks : List Chunk
  pub documents : List Document
  pub jobs : List Job
  pub batches : List Batch
  pub storage_used_bytes : ℕ
  pub objects : Key → Option Bytes

-- The refusals, each with its HTTP status.
pub data Error : Type 0 where
  not_found_404 already_finished_409 expired_410 document_deleted_410 : Error
  failed_400 : String → Error
  no_such_part_400 incomplete_400 damaged_400 part_too_large_413 quota_413 : Error
  different_content_409 file_mismatch_409 duplicate_409 storage_503 : Error
  missing_parts_409 : ℕ → Error
  batch_404 file_too_large_413 bad_chunk_size_400 : Error

pub data Result (A : Type 0) : Type 0 where
  ok : A → Result A
  raise : Error → Result A

-- A request ends with a result and the rows and objects that it left behind.
abbrev pub Action : Type 0 → Type 0
Action A = Db → Result A × Db

abbrev pub fail_with : {A : Type 0} → Error → Action A
fail_with e db = (raise e, db)

abbrev pub put_object : Key → Bytes → (Key → Option Bytes) → Key → Option Bytes
put_object k bytes objects j = if same_key j k then some bytes else objects j

abbrev pub drop_object : Key → (Key → Option Bytes) → Key → Option Bytes
drop_object k objects j = if same_key j k then none else objects j

unfoldable pub new_expiry : Settings → ℕ → ℕ
new_expiry settings now = now + settings.session_ttl

unfoldable pub is_expired : ℕ → Upload → Bool
is_expired now upload = leb upload.expires_at now
