-- ===== src/Uploads/Sessions.antt =====
-- Starting, reading and abandoning a resumable upload
-- (backend/app/api/v1/endpoints/uploads.py), with the space that unfinished uploads reserve
-- (backend/app/services/storage_usage.py).
use yarrow.Prelude.{
  ℕ, ◌+◌, ◌-◌, ◌/◌, String, Bool, not, ◌&&◌, ◌||◌, Option, none, some, List, [], map, ltb, leb,
  ◌==◌, if◌then◌else◌, length, range_from, sum_of,
}
use yarrow.Status.{processing, canceled, is_completed, is_canceled, is_processing}
use yarrow.Uploads.Model.{
  Settings, Upload, Key, Chunk, Db, Result, ok, Action, expired_410, quota_413, failed_400,
  file_too_large_413, bad_chunk_size_400, new_expiry, is_expired,
}
use yarrow.Uploads.Chunks.{
  load, supported, unsupported_message, delete_objects, with_result, ◌>>=◌, ◌>>◌, guard,
}
use yarrow.Uploads.Finalize.{check_batch, in_order}

-- UploadSessionCreate, which refuses sizes of 0, with the extension that `_extension_of` finds in
-- the name.
pub record Create : Type 0 where
  pub filename : String
  pub extension : String
  pub total_size_bytes : ℕ
  pub chunk_size_bytes : ℕ
  pub sha256 : Option ℕ
  pub batch_id : Option ℕ

abbrev pub min_chunk_bytes : ℕ
min_chunk_bytes = 65536

abbrev pub max_chunk_bytes : ℕ
max_chunk_bytes = 16777216

-- `_reserved_bytes`: what the owner's unfinished sessions declared.
unfoldable pub reserved_bytes : ℕ → ℕ → List Upload → ℕ
reserved_bytes now owner_id uploads =
    sum_of
      (λ (u : Upload).
        if (u.owner_id == owner_id) && is_processing u.status && ltb now u.expires_at
        then u.total_size_bytes
        else 0)
      uploads

-- `max(quota_bytes - used_bytes - reserved, 0)`
unfoldable pub remaining_bytes : Settings → ℕ → ℕ → ℕ
remaining_bytes settings used reserved = (settings.storage_quota_bytes - used) - reserved

-- `math.ceil(total / size)`
abbrev pub ceil_div : ℕ → ℕ → ℕ
ceil_div total size = (total + (size - 1)) / size

unfoldable pub new_upload : Settings → ℕ → ℕ → ℕ → Create → Upload
unfolding new_expiry
new_upload settings now id owner_id payload = record {
  id = id;
  owner_id = owner_id;
  filename = payload.filename;
  total_size_bytes = payload.total_size_bytes;
  chunk_size_bytes = payload.chunk_size_bytes;
  chunk_count = ceil_div payload.total_size_bytes payload.chunk_size_bytes;
  expected_sha256 = payload.sha256;
  file_sha256 = none;
  batch_id = payload.batch_id;
  status = processing;
  error_message = none;
  document_id = none;
  expires_at = new_expiry settings now;
}

-- The session that a request starts next to the sessions that there are, or the refusal.
-- `db` has the batches and the space that the owner's documents use.
unfoldable pub create_upload_session :
    Settings → ℕ → ℕ → ℕ → Create → List Upload → Db → Result Upload
create_upload_session settings now id owner_id payload uploads db = do
  guard (supported (some payload.extension)) (failed_400 unsupported_message)
  guard (leb payload.total_size_bytes settings.max_upload_bytes) file_too_large_413
  guard
      (leb min_chunk_bytes payload.chunk_size_bytes && leb payload.chunk_size_bytes max_chunk_bytes)
      bad_chunk_size_400
  check_batch owner_id payload.batch_id db
  guard
      (leb payload.total_size_bytes
        (remaining_bytes settings db.storage_used_bytes (reserved_bytes now owner_id uploads)))
      quota_413
  ok (new_upload settings now id owner_id payload)

pub record SessionOut : Type 0 where
  pub upload : Upload
  pub received_chunks : List ℕ
  pub received_checksums : List ℕ
  pub received_bytes : ℕ

-- What a session has: of a completed one, whose chunks are discarded, everything.
unfoldable pub session_out : Upload → List Chunk → SessionOut
session_out upload chunks =
    if is_completed upload.status
    then record {
      upload = upload;
      received_chunks = range_from 0 upload.chunk_count;
      received_checksums = [];
      received_bytes = upload.total_size_bytes;
    }
    else record {
      upload = upload;
      received_chunks = map (λ (c : Chunk). c.chunk_index) (in_order chunks);
      received_checksums = map (λ (c : Chunk). c.sha256) (in_order chunks);
      received_bytes = sum_of (λ (c : Chunk). c.size_bytes) chunks;
    }

unfoldable pub readable : ℕ → Upload → Bool
readable now upload =
    is_completed upload.status || not (is_canceled upload.status || is_expired now upload)

unfoldable pub get_upload_session : ℕ → ℕ → Db → Result SessionOut
get_upload_session now owner_id db = do
  upload ← load owner_id db
  guard (readable now upload) expired_410
  ok (session_out upload db.chunks)

abbrev pub keys_of : List Chunk → List Key
keys_of = map (λ (c : Chunk). c.storage_key)

-- The session and its chunk rows go, unless an object could not be deleted.
unfoldable pub abort_loaded : (Key → Bool) → ℕ → Upload → Action (Unit {0})
abort_loaded fails now upload db =
    let (kept, left) = delete_objects fails (keys_of db.chunks) db.objects in
    if length kept == 0
    then (ok tt, record db { upload = none; chunks = []; objects = left })
    else (
      ok tt,
      record db {
        upload = some (record upload { status = canceled; expires_at = now });
        objects = left;
      },
    )

unfoldable pub abort_upload : (Key → Bool) → ℕ → ℕ → Action (Unit {0})
abort_upload fails now owner_id db = with_result (load owner_id db) (abort_loaded fails now) db
