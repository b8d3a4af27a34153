-- ===== src/Uploads/Samples.antt =====
-- A small upload of three bytes in two chunks, and the theorems applied to it.
use yarrow.Prelude.{ℕ, ◌≡◌, refl, ◌⊎◌, true, false, none, some, [], ◌∷◌, map, arith, range_from}
use yarrow.Prelude.Int.{pos}
use yarrow.Status.{processing}
use yarrow.Uploads.Model.{
  Settings, Bytes, Externals, Upload, Chunk, Db, ok, raise, failed_400, chunk_key, chunk_object,
  is_expired, put_object,
}
use yarrow.Uploads.Chunks.{
  Faults, Receipt, put_chunk, check_part, check_body, part_index, expected_chunk_size, read_body,
  load, owned, require_open, open_by_status, store_part, store_new, confirm, find_chunk,
  unsupported_message,
}
use yarrow.Uploads.Confirmed.{IsSound, IsStored}
use yarrow.Uploads.Put.{StaysSound, put_chunk-StaysSound}
use yarrow.Uploads.Retry.{confirmed_kept, put_chunk_retry}
use yarrow.Uploads.Assembly.{IsPlanned, assemble_complete, contents}
use yarrow.Uploads.Finalize.{Assembled, assemble, empty_file, in_order, keys_in_order}

abbrev pub settings : Settings
settings = record { storage_quota_bytes = 1000; max_upload_bytes = 500; session_ttl = 60 }

-- A stand-in for the digest, and for the file type of every body.
abbrev digest_of : Bytes → ℕ
digest_of [] = 5
digest_of (b ∷ bs) = b

abbrev pub externals : Externals
externals = record { sha256 = digest_of; guess = λ _. some "pdf" }

abbrev pub steady : Faults
steady = record {
  download_fails = λ _. false;
  queue_fails = false;
  upload_fails = false;
  delete_fails = λ _. false;
}

abbrev pub store_down : Faults
store_down = record {
  download_fails = λ _. true;
  queue_fails = true;
  upload_fails = true;
  delete_fails = λ _. true;
}

abbrev pub session : Upload
session = record {
  id = 9;
  owner_id = 4;
  filename = "scan.pdf";
  total_size_bytes = 3;
  chunk_size_bytes = 2;
  chunk_count = 2;
  expected_sha256 = none;
  file_sha256 = none;
  batch_id = none;
  status = processing;
  error_message = none;
  document_id = none;
  expires_at = 100;
}

abbrev started : Db
started = record {
  upload = some session;
  chunks = [];
  documents = [];
  jobs = [];
  batches = [];
  storage_used_bytes = 10;
  objects = λ _. none;
}

abbrev second_chunk : Chunk
second_chunk = record {
  chunk_index = 1;
  size_bytes = 1;
  sha256 = 13;
  storage_key = chunk_object 9 1 0;
}

abbrev first_chunk : Chunk
first_chunk = record {
  chunk_index = 0;
  size_bytes = 2;
  sha256 = 11;
  storage_key = chunk_object 9 0 0;
}

-- Both chunks are confirmed; the second arrived first.
abbrev pub complete : Db
complete = record started {
  chunks = second_chunk ∷ first_chunk ∷ [];
  objects =
      put_object (chunk_object 9 1 0) (13 ∷ [])
        (put_object (chunk_object 9 0 0) (11 ∷ 12 ∷ []) (λ _. none));
}

started-IsSound : IsSound externals session started
started-IsSound = record { present = refl; stored = tt; distinct = tt }

put_chunk-StaysSound_example :
    StaysSound externals session
      (put_chunk settings externals steady 50 4 (pos 1) ((13 ∷ []) ∷ []) none started started).1
put_chunk-StaysSound_example =
    put_chunk-StaysSound externals settings steady 50 4 (pos 1) ((13 ∷ []) ∷ []) none started
      started session (λ u same. ground arith) started-IsSound

confirmed_kept_example :
    ((put_chunk settings externals steady 50 4
        (pos 0)
        ((11 ∷ 12 ∷ []) ∷ [])
        none
        complete
        complete).0
      ≡ raise (failed_400 unsupported_message))
    ⊎ (find_chunk 1
          (put_chunk settings externals steady 50 4
            (pos 0)
            ((11 ∷ 12 ∷ []) ∷ [])
            none
            complete
            complete).1.chunks
        ≡ some second_chunk)
confirmed_kept_example =
    confirmed_kept externals settings steady 50 4 (pos 0) ((11 ∷ 12 ∷ []) ∷ []) none complete
      complete 1 second_chunk refl

abbrev receipt : Receipt
receipt = record {
  index = 1;
  size_bytes = 1;
  sha256 = 13;
  already_received = false;
  received_bytes = 1;
  received_count = 1;
}

put_accepted :
    (put_chunk settings externals steady 50 4 (pos 1) ((13 ∷ []) ∷ []) none started started).0
    ≡ ok receipt
unfolding put_chunk check_part check_body part_index expected_chunk_size read_body load owned
    require_open open_by_status is_expired store_part store_new confirm
put_accepted = refl

put_chunk_retry_example :
    let after =
      (put_chunk settings externals steady 50 4 (pos 1) ((13 ∷ []) ∷ []) none started started).1 in
    let again =
      put_chunk settings externals store_down 80 4 (pos 1) ((13 ∷ []) ∷ []) none after after in
    (again.0 ≡ ok (record receipt { already_received = true }))
    × ((row : Upload) × (after.upload ≡ some row)
        × (again.1 ≡ record after { upload = some (record row { expires_at = 140 }) }))
put_chunk_retry_example =
    put_chunk_retry externals settings steady store_down 50 80 4 (pos 1) ((13 ∷ []) ∷ []) none
      started receipt put_accepted (omega arith)

session-IsPlanned : IsPlanned session
session-IsPlanned = omega arith

IsStored-first : IsStored externals session complete.objects first_chunk
unfolding chunk_key expected_chunk_size
IsStored-first = record {
  in_range = omega arith;
  keyed = refl;
  bytes = 11 ∷ 12 ∷ [];
  held = refl;
  sized = refl;
  expected = refl;
  hashed = refl;
}

IsStored-second : IsStored externals session complete.objects second_chunk
unfolding chunk_key expected_chunk_size
IsStored-second = record {
  in_range = omega arith;
  keyed = refl;
  bytes = 13 ∷ [];
  held = refl;
  sized = refl;
  expected = refl;
  hashed = refl;
}

assemble_complete_example :
    (map (λ (c : Chunk). c.chunk_index) (in_order complete.chunks) ≡ range_from 0 2)
    × ((file : Assembled) × (assemble complete.objects empty_file (keys_in_order complete.chunks)
          ≡ some file)
        × (file.spool ≡ contents complete.objects (keys_in_order complete.chunks))
        × (file.size ≡ 3))
assemble_complete_example =
    assemble_complete externals session complete.objects complete.chunks session-IsPlanned
      (IsStored-second, (IsStored-first, tt)) (refl, (refl, tt)) refl
