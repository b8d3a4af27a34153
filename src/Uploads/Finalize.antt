-- ===== src/Uploads/Finalize.antt =====
-- Assembling the chunks into one document, exactly once: `finalize_upload`
-- (backend/app/api/v1/endpoints/uploads.py), with the duplicate and batch lookups that it shares
-- with the single-request upload (backend/app/api/v1/endpoints/documents.py).
mod Lookup
mod File
mod Commit
unfoldable pub use Lookup.*
unfoldable pub use File.*
unfoldable pub use Commit.*
use yarrow.Prelude.{
  ℕ, ◌+◌, ◌-◌, String, Bool, true, false, not, ◌&&◌, Option, none, some, List, [], ◌∷◌, ◌++◌, map,
  ltb, leb, ◌==◌, if◌then◌else◌, is_none, length, find_first, take,
}
use yarrow.Prelude.Sorting.{sort_by}
use yarrow.Status.{Status, queued, completed, failed, is_completed}
use yarrow.Uploads.Model.{
  Settings, Bytes, Externals, Upload, Key, Chunk, Document, Job, Batch, Db, Error, Result, ok,
  raise, Action, document_object, document_deleted_410, file_mismatch_409, duplicate_409,
  storage_503, missing_parts_409, quota_413, batch_404, put_object, new_expiry, fail_with,
}
use yarrow.Uploads.Chunks.{
  Faults, load, require_open, delete_objects, discard_chunks, fail, supported, sniff_bytes,
  corrupt_message, unsupported_message, with_result,
}

abbrev pub download : Faults → (Key → Option Bytes) → Key → Option Bytes
download faults objects key = if faults.download_fails key then none else objects key

abbrev pub keys_in_order : List Chunk → List Key
keys_in_order chunks = map (λ (c : Chunk). c.storage_key) (in_order chunks)

-- A finalize of a session that takes chunks.
unfoldable pub finalize_open :
    Settings → Externals → Faults → (Db → Db) → ℕ → Finalize → Upload → Fresh → Action Accepted
finalize_open settings externals faults meanwhile now payload upload fresh db =
    if length db.chunks == upload.chunk_count
    then elim (assemble (download faults db.objects) empty_file (keys_in_order db.chunks)) [
      | none ↦ fail_with storage_503 db
      | some file ↦
          finalize_file settings externals faults meanwhile now payload upload fresh file db
    ]
    else fail_with (missing_parts_409 (upload.chunk_count - length db.chunks)) db

unfoldable pub finalize_loaded :
    Settings → Externals → Faults → (Db → Db) → ℕ → Finalize → Fresh → Upload → Action Accepted
finalize_loaded settings externals faults meanwhile now payload fresh upload db =
    if is_completed upload.status
    then finish_again upload.owner_id payload upload db
    else with_result (require_open now upload)
        (λ _. finalize_open settings externals faults meanwhile now payload upload fresh) db

unfoldable pub finalize_upload :
    Settings → Externals → Faults → (Db → Db) → ℕ → ℕ → Finalize → Fresh → Action Accepted
finalize_upload settings externals faults meanwhile now owner_id payload fresh db =
    with_result (load owner_id db)
      (finalize_loaded settings externals faults meanwhile now payload fresh) db
