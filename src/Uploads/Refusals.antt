-- ===== src/Uploads/Refusals.antt =====
-- What a refused finalize leaves of its session (backend/app/api/v1/endpoints/uploads.py).
use yarrow.Prelude.{
  ℕ, ◌≡◌, refl, ◌∙◌, ◌⊎◌, inl, inr, true, ltb, ◌+◌, Bool, String, not, ◌&&◌, Option, none, some,
  map, keep, keep-passes, All, All-imp, Bool-cases, Option-cases, length, is_none, ◌==◌, arith,
}
use yarrow.Status.{failed, is_completed}
use yarrow.Uploads.Model.{
  Settings, Externals, Upload, Chunk, Key, Db, Error, Result, ok, raise, failed_400,
  document_object, put_object,
}
use yarrow.Uploads.Chunks.{
  Faults, load, require_open, open_by_status, fail, discard_chunks, delete_objects, has_key,
}
use yarrow.Uploads.Deletion.{keys_kept}
use yarrow.Uploads.Finalize.{
  Finalize, Accepted, Assembled, Fresh, finalize_upload, finalize_loaded, finalize_open,
  finalize_file, finalize_locked, identical_document, check_batch, file_problem, batch_rows,
  withdraw, assemble, download, empty_file, keys_in_order, finish_again, join_batch,
  recorded_document, differs, get_or_create_batch,
}
use yarrow.Uploads.Put.{Result-cases}

-- The session is failed with the reason, with which `require_open` refuses it at any time, and only
-- chunks whose objects could not be deleted still have rows.
unfoldable pub IsFailed : (Key → Bool) → Error → Db → Type 0
IsFailed fails e after =
    (reason : String) × (e ≡ failed_400 reason)
    × ((row : Upload) × (after.upload ≡ some row)
        × (row.status ≡ failed)
        × ((later : ℕ) → require_open later row ≡ raise (failed_400 reason)))
    × All (λ (c : Chunk). fails c.storage_key ≡ true) after.chunks

-- The refusal failed the session, or the session and its chunk rows are as they were.
unfoldable pub LeavesOpen : (Key → Bool) → Db → Result Accepted × Db → Type 0
LeavesOpen fails db (ok reply, after) = Unit
LeavesOpen fails db (raise e, after) =
    IsFailed fails e after ⊎ ((after.upload ≡ db.upload) × (after.chunks ≡ db.chunks))

discard_chunks-kept :
    (fails : Key → Bool) (db : Db)
    → All (λ (c : Chunk). fails c.storage_key ≡ true) (discard_chunks fails db).chunks
unfolding discard_chunks
discard_chunks-kept fails db =
    let keys = map (λ (c : Chunk). c.storage_key) db.chunks in
    let left = (delete_objects fails keys db.objects).0 in
    All-imp
      (λ (c : Chunk) reported.
        ground (arith, keys_kept fails c.storage_key keys db.objects, reported))
      (keep (λ (c : Chunk). has_key c.storage_key left) db.chunks)
      (keep-passes (λ (c : Chunk). has_key c.storage_key left) db.chunks)

fail-IsFailed :
    (fails : Key → Bool) (upload : Upload) (reason : String) (db : Db)
    → IsFailed fails (failed_400 reason) (fail {A = Accepted} fails upload reason db).1
unfolding IsFailed fail require_open open_by_status
fail-IsFailed fails upload reason db =
    let row = record upload { status = failed; error_message = some reason } in
    let kept = discard_chunks-kept fails (record db { upload = some row }) in
    (reason, refl, (row, unfold discard_chunks in refl, refl, (λ later. refl)), kept)

module _ (settings : Settings) (externals : Externals) (faults : Faults) (meanwhile : Db → Db)
    (now : ℕ) (payload : Finalize) (fresh : Fresh) where
  finalize_locked-LeavesOpen :
      (upload : Upload) (size digest : ℕ) (batch_id : Option ℕ) (db : Db)
      → LeavesOpen faults.delete_fails db
          (finalize_locked settings faults now payload upload fresh size digest batch_id db)
  unfolding finalize_locked withdraw LeavesOpen
  finalize_locked-LeavesOpen upload size digest batch_id db =
      elim (Bool-cases (
        not payload.allow_duplicate
        && not (is_none (identical_document upload.owner_id digest db.documents)))) [
          | inl duplicate ↦ rw duplicate (inr (refl, refl))
          | inr new ↦
              rw new
                (elim (Bool-cases
                  (ltb settings.storage_quota_bytes (db.storage_used_bytes + size))) [
                    | inl over ↦ rw over (inr (refl, refl))
                    | inr fits ↦
                        rw fits
                          (elim (Result-cases (batch_rows upload.owner_id batch_id db.batches)) [
                            | inl (refusal, stopped) ↦ rw stopped (inr (refl, refl))
                            | inr (batches, checked) ↦ rw checked tt
                          ])
                  ])
        ]

  module _
      (quiet : (d : Db)
        → ((meanwhile d).upload ≡ d.upload) × ((meanwhile d).chunks ≡ d.chunks)) where
    later-LeavesOpen :
        (d db : Db) (r : Result Accepted × Db)
        → d.upload ≡ db.upload
        → d.chunks ≡ db.chunks
        → LeavesOpen faults.delete_fails (meanwhile d) r
        → LeavesOpen faults.delete_fails db r
    unfolding LeavesOpen
    later-LeavesOpen d db (ok reply, after) p q h = tt
    later-LeavesOpen d db (raise e, after) p q (inl gone) = inl gone
    later-LeavesOpen d db (raise e, after) p q (inr (u, c)) =
        inr (u ∙ (quiet d).0 ∙ p, c ∙ (quiet d).1 ∙ q)

    finalize_file-LeavesOpen :
        (upload : Upload) (file : Assembled) (db : Db)
        → LeavesOpen faults.delete_fails db
            (finalize_file settings externals faults meanwhile now payload upload fresh file db)
    unfolding finalize_file LeavesOpen fail finalize_locked withdraw
    finalize_file-LeavesOpen upload file db =
        let digest = externals.sha256 file.spool in
        let batch_id : Option ℕ = elim payload.batch_id [
          | none ↦ upload.batch_id
          | some id ↦ some id
        ] in
        let stored : Db = record db {
          objects = put_object (document_object fresh.document_id) file.spool db.objects;
        } in
        elim (Option-cases
          (file_problem settings payload upload file.size digest (externals.guess file.header))) [
            | inr (reason, bad) ↦
                rw (bad, finalize_file) (inl (fail-IsFailed faults.delete_fails upload reason db))
            | inl fine ↦
                rw (fine, finalize_file)
                  (elim (Result-cases (check_batch upload.owner_id batch_id db)) [
                    | inl (refusal, stopped) ↦ rw stopped (inr (refl, refl))
                    | inr (_, checked) ↦
                        rw checked
                          (elim (Bool-cases (
                            not payload.allow_duplicate
                            && not (
                                is_none
                                  (identical_document upload.owner_id digest db.documents)))) [
                                    | inl duplicate ↦ rw duplicate (inr (refl, refl))
                                    | inr new ↦ rw new (elim (Bool-cases faults.upload_fails) [
                                      | inl down ↦ rw down (inr (refl, refl))
                                      | inr up ↦ rw up (
                                          later-LeavesOpen stored db _ refl refl (
                                            finalize_locked-LeavesOpen upload file.size digest
                                              batch_id (meanwhile stored)))
                                    ])
                                  ])
                  ])
          ]

    finalize_open-LeavesOpen :
        (upload : Upload) (db : Db)
        → LeavesOpen faults.delete_fails db
            (finalize_open settings externals faults meanwhile now payload upload fresh db)
    unfolding finalize_open LeavesOpen
    finalize_open-LeavesOpen upload db =
        elim (Bool-cases (length db.chunks == upload.chunk_count)) [
          | inr missing ↦ rw missing (inr (refl, refl))
          | inl complete ↦
              rw complete
                (elim (Option-cases
                  (assemble (download faults db.objects) empty_file (keys_in_order db.chunks))) [
                    | inl broken ↦ rw broken (inr (refl, refl))
                    | inr (file, built) ↦ rw built (finalize_file-LeavesOpen upload file db)
                  ])
        ]

    finish_again-LeavesOpen :
        (owner_id : ℕ) (upload : Upload) (db : Db)
        → LeavesOpen faults.delete_fails db (finish_again owner_id payload upload db)
    unfolding finish_again join_batch LeavesOpen
    finish_again-LeavesOpen owner_id upload db =
        elim (Option-cases (recorded_document upload.document_id db.documents)) [
          | inl deleted ↦ rw (deleted, finish_again) (inr (refl, refl))
          | inr (document, there) ↦
              rw (there, finish_again)
                (elim (Bool-cases (differs payload.sha256 upload.file_sha256)) [
                  | inl mismatch ↦ rw mismatch (inr (refl, refl))
                  | inr agrees ↦ rw agrees (elim (Option-cases payload.batch_id) [
                    | inl alone ↦ rw alone tt
                    | inr (batch_id, joins) ↦
                        rw joins (elim (Bool-cases (is_none document.batch_id)) [
                          | inr counted ↦ rw counted tt
                          | inl outside ↦
                              rw outside
                                (elim (Result-cases
                                  (get_or_create_batch owner_id batch_id db.batches)) [
                                    | inl (refusal, stopped) ↦ rw stopped (inr (refl, refl))
                                    | inr (batches, joined) ↦ rw joined tt
                                  ])
                        ])
                  ])
                ])
        ]

    -- When other requests leave this session alone while a finalize stores its object, a refused
    -- finalize either failed the session, with its reason, with which `require_open`, the check of
    -- the chunk requests and the finalize, refuses it at any time, and left rows only of chunks whose
    -- objects could not be deleted, or left the session and all its chunk rows as they were.
    pub finalize_upload-LeavesOpen :
        (owner_id : ℕ) (db : Db)
        → LeavesOpen faults.delete_fails db
            (finalize_upload settings externals faults meanwhile now owner_id payload fresh db)
    unfolding finalize_upload finalize_loaded LeavesOpen
    finalize_upload-LeavesOpen owner_id db = elim (Result-cases (load owner_id db)) [
      | inl (refusal, stopped) ↦ rw stopped (inr (refl, refl))
      | inr (upload, loaded) ↦ rw loaded (elim (Bool-cases (is_completed upload.status)) [
        | inl finished ↦ rw finished (finish_again-LeavesOpen upload.owner_id upload db)
        | inr unfinished ↦ rw unfinished (elim (Result-cases (require_open now upload)) [
          | inl (refusal, stopped) ↦ rw stopped (inr (refl, refl))
          | inr (_, opened) ↦ rw opened (finalize_open-LeavesOpen upload db)
        ])
      ])
    ]
