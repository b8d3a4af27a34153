-- ===== src/Uploads/FinalizeSamples.antt =====
-- The finalize of the small upload, and the theorems applied to it.
use yarrow.Prelude.{length, ◌≡◌, refl, false, none, some, [], ◌∷◌}
use yarrow.Status.{Status, processing}
use yarrow.Uploads.Model.{Document, Db, document_object, ok, is_expired}
use yarrow.Uploads.Chunks.{load, owned, require_open, open_by_status}
use yarrow.Uploads.Finalize.{
  Finalize, Accepted, Assembled, Fresh, finalize_upload, finalize_loaded, finalize_open,
  finalize_file, finalize_locked, identical_document, check_batch, file_problem, assemble,
  append_chunk, empty_file, download, in_order, keys_in_order,
}
use yarrow.Uploads.Refusals.{LeavesOpen, finalize_upload-LeavesOpen}
use yarrow.Uploads.Committed.{IsFinalized}
use yarrow.Uploads.Once.{finalize_once, finalize_upload-IsFinalized, at_lock}
use yarrow.Uploads.Samples.{settings, externals, steady, store_down, session, complete}

abbrev plain : Finalize
plain = record { sha256 = none; batch_id = none; allow_duplicate = false }

abbrev ids : Fresh
ids = record { document_id = 70; job_id = 71; task_id = 72 }

abbrev other_ids : Fresh
other_ids = record { document_id = 80; job_id = 81; task_id = 82 }

abbrev the_file : Assembled
the_file = record { spool = 11 ∷ 12 ∷ 13 ∷ []; size = 3; header = 11 ∷ 12 ∷ 13 ∷ [] }

abbrev reply : Accepted
reply = record {
  document_id = 70;
  job_id = 71;
  filename = "scan.pdf";
  file_size_bytes = 3;
  status = Status.queued;
}

session_loaded : load 4 complete ≡ ok session
unfolding load owned
session_loaded = refl

file_built :
    assemble (download steady complete.objects) empty_file (keys_in_order complete.chunks)
    ≡ some the_file
unfolding assemble append_chunk in_order
file_built = refl

finalize_accepted :
    (finalize_upload settings externals steady (λ db. db) 50 4 plain ids complete).0 ≡ ok reply
unfolding finalize_upload finalize_loaded load owned require_open open_by_status is_expired
    finalize_open finalize_file finalize_locked file_problem check_batch identical_document assemble
    append_chunk in_order
finalize_accepted = refl

abbrev finalized : Db
finalized = (finalize_upload settings externals steady (λ db. db) 50 4 plain ids complete).1

-- The worker has begun with the document, and another upload has used space since.
abbrev stored_document : Document
stored_document = record {
  id = 70;
  owner_id = 4;
  filename = "scan.pdf";
  file_size_bytes = 3;
  content_sha256 = some 11;
  storage_key = document_object 70;
  batch_id = none;
  status = processing;
  error_message = none;
  trashed = false;
}

abbrev later_rows : Db
later_rows = record finalized { storage_used_bytes = 500; documents = stored_document ∷ [] }

finalize_once_example :
    (reply' : Accepted) × (finalize_upload settings externals store_down
        (λ db. db)
        70
        4
        plain
        other_ids
        later_rows
      ≡ (ok reply', later_rows))
    × (reply'.document_id ≡ 70)
finalize_once_example =
    finalize_once settings externals steady store_down (λ db. db) (λ db. db) 50 70 4 plain plain ids
      other_ids session complete later_rows reply the_file stored_document session_loaded refl
      file_built finalize_accepted refl refl refl refl

finalize_upload-IsFinalized_example :
    (file : Assembled) × (assemble
        (download steady complete.objects)
        empty_file
        (keys_in_order complete.chunks)
      ≡ some file)
    × (length complete.chunks ≡ 2)
    × IsFinalized settings session ids file.size
        (externals.sha256 file.spool)
        (at_lock (λ db. db) ids file complete)
        reply
        (finalize_upload settings externals steady (λ db. db) 50 4 plain ids complete).1
finalize_upload-IsFinalized_example =
    finalize_upload-IsFinalized settings externals steady (λ db. db) 50 4 plain ids session complete
      reply session_loaded refl finalize_accepted

-- The file does not match the checksum that the finalize names, so the session fails.
abbrev wrong_checksum : Finalize
wrong_checksum = record plain { sha256 = some 99 }

finalize_upload-LeavesOpen_example :
    LeavesOpen steady.delete_fails complete
      (finalize_upload settings externals steady (λ db. db) 50 4 wrong_checksum ids complete)
finalize_upload-LeavesOpen_example =
    finalize_upload-LeavesOpen settings externals steady (λ db. db) 50 wrong_checksum ids
      (λ d. (refl, refl)) 4 complete
