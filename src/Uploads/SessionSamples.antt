-- ===== src/Uploads/SessionSamples.antt =====
-- A session of two parts that is started, abandoned or swept, and the theorems applied to it.
use yarrow.Prelude.{
  ℕ, ◌+◌, ◌≤◌, ◌≡◌, ◌⊎◌, refl, Bool, true, false, none, some, [], ◌∷◌, arith, All, elem,
}
use yarrow.Status.{processing}
use yarrow.Uploads.Model.{
  Settings, Upload, Key, Db, ok, raise, expired_410, chunk_object, put_object, new_expiry,
}
use yarrow.Uploads.Chunks.{load, owned, require_open, has_key}
use yarrow.Uploads.Finalize.{check_batch}
use yarrow.Uploads.Sessions.{
  Create, create_upload_session, new_upload, reserved_bytes, remaining_bytes, abort_upload, keys_of,
}
use yarrow.Uploads.Assembly.{IsPlanned}
use yarrow.Uploads.Starting.{create_upload_session-IsPlanned}
use yarrow.Uploads.Aborting.{abort_upload_lem}
use yarrow.Uploads.Sweep.{Rows, purge_expired_upload_sessions, purge_expired_upload_sessions_lem}

abbrev settings : Settings
settings = record { storage_quota_bytes = 1000000; max_upload_bytes = 500000; session_ttl = 60 }

abbrev scan : Create
scan = record {
  filename = "scan.pdf";
  extension = "pdf";
  total_size_bytes = 100000;
  chunk_size_bytes = 65536;
  sha256 = none;
  batch_id = none;
}

abbrev session : Upload
session = record {
  id = 9;
  owner_id = 4;
  filename = "scan.pdf";
  total_size_bytes = 100000;
  chunk_size_bytes = 65536;
  chunk_count = 2;
  expected_sha256 = none;
  file_sha256 = none;
  batch_id = none;
  status = processing;
  error_message = none;
  document_id = none;
  expires_at = 110;
}

abbrev unfinished : Upload
unfinished = record session { id = 8; total_size_bytes = 65536 }

abbrev stored : Db
stored = record {
  upload = some session;
  chunks =
      record { chunk_index = 0; size_bytes = 2; sha256 = 11; storage_key = chunk_object 9 0 0 }
      ∷ [];
  documents = [];
  jobs = [];
  batches = [];
  storage_used_bytes = 10;
  objects = put_object (chunk_object 9 0 0) (11 ∷ 12 ∷ []) (λ _. none);
}

started : create_upload_session settings 50 9 4 scan (unfinished ∷ []) stored ≡ ok session
unfolding create_upload_session new_upload new_expiry reserved_bytes remaining_bytes check_batch
started = refl

create_upload_session-IsPlanned_example :
    IsPlanned session
    × (reserved_bytes 50 4 (session ∷ unfinished ∷ [])
        ≡ 100000 + reserved_bytes 50 4 (unfinished ∷ []))
    × (10 + reserved_bytes 50 4 (session ∷ unfinished ∷ []) ≤ 1000000)
create_upload_session-IsPlanned_example =
    create_upload_session-IsPlanned settings 50 9 4 scan (unfinished ∷ []) stored session
      (omega arith) (omega arith) started

loaded : load 4 stored ≡ ok session
unfolding load owned
loaded = refl

abbrev never : Key → Bool
never _ = false

abort_upload_lem_example :
    let after = (abort_upload never 80 4 stored).1 in
    (after.documents ≡ [])
    × (after.jobs ≡ [])
    × (after.storage_used_bytes ≡ 10)
    × ((k : Key) → has_key k (keys_of stored.chunks) ≡ false → after.objects k ≡ stored.objects k)
    × (((after.upload ≡ none)
          × (after.chunks ≡ [])
          × ((k : Key) → has_key k (keys_of stored.chunks) ≡ true → after.objects k ≡ none))
        ⊎ ((after.chunks ≡ stored.chunks)
            × ((row : Upload) × (after.upload ≡ some row)
                × ((later : ℕ) → require_open later row ≡ raise expired_410))))
abort_upload_lem_example = abort_upload_lem never 80 4 session stored loaded

abbrev rows : Rows
rows = record {
  sessions = record { id = 9; expires_at = 110 } ∷ record { id = 8; expires_at = 300 } ∷ [];
  chunks =
      record { session_id = 9; storage_key = chunk_object 9 0 0 }
      ∷ record { session_id = 8; storage_key = chunk_object 8 0 0 }
      ∷ [];
  objects = λ _. some (1 ∷ []);
}

abbrev unlocked : ℕ → Bool
unlocked _ = false

purge_expired_upload_sessions_lem_example :
    let (removed, after) = purge_expired_upload_sessions never unlocked 200 rows in
    All (λ r. elem r.session_id removed ≡ true → after.objects r.storage_key ≡ none) rows.chunks
purge_expired_upload_sessions_lem_example =
    purge_expired_upload_sessions_lem never unlocked 200 rows
