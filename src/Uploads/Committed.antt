-- ===== src/Uploads/Committed.antt =====
-- What the commit of a finalize leaves (backend/app/api/v1/endpoints/uploads.py).
use yarrow.Prelude.{
  ℕ, suc, ◌≤◌, ◌+◌, ltb, ◌≡◌, ◌∙◌, ap, refl, inl, inr, Bool, true, false, not, ◌&&◌, Option, some,
  List, [], ◌∷◌, ◌++◌, map, arith, Bool-cases, ==_iff, ==_refl, ◌==◌, length, is_none,
  if◌then◌else◌,
}
use yarrow.Status.{completed, failed}
use yarrow.Uploads.Model.{Settings, Upload, Key, Document, Job, Batch, Db, ok}
use yarrow.Uploads.Chunks.{Faults, discard_chunks}
use yarrow.Uploads.Put.{Result-cases}
use yarrow.Uploads.Finalize.{
  Finalize, Accepted, Fresh, finalize_locked, completed_rows, enqueued, withdraw,
  identical_document, batch_rows, queue_failed_message, find_document,
}

find_document-append :
    (id : ℕ) (ds : List Document) (d : Document)
    → d.id ≡ id
    → (found : Document) × (find_document id (ds ++ d ∷ []) ≡ some found) × (found.id ≡ id)
find_document-append id [] d e = (d, ground (arith, ==_refl id), e)
find_document-append id (x ∷ ds) d e = elim (Bool-cases (x.id == id)) [
  | inl here ↦ (x, rw here, (==_iff x.id id).0 here)
  | inr other ↦ rw other (find_document-append id ds d e)
]

find_document-map :
    (id : ℕ) (f : Document → Document) (same : (d : Document) → (f d).id ≡ d.id)
    (ds : List Document) (d : Document)
    → find_document id ds ≡ some d
    → find_document id (map f ds) ≡ some (f d)
find_document-map id f same [] d h = cc
find_document-map id f same (x ∷ ds) d h = ground (arith, same x, find_document-map id f same ds d)

length-map_documents :
    (f : Document → Document) (ds : List Document) → length (map f ds) ≡ length ds
length-map_documents f [] = refl
length-map_documents f (d ∷ ds) = ap suc (length-map_documents f ds)

length-append_one : (ds : List Document) (d : Document) → length (ds ++ d ∷ []) ≡ suc (length ds)
length-append_one [] d = refl
length-append_one (x ∷ ds) d = ap suc (length-append_one ds d)

-- What a finalize that went through has done, from the rows `db` that it held locked.
pub record IsFinalized (settings : Settings) (upload : Upload) (fresh : Fresh) (size digest : ℕ)
    (db : Db) (reply : Accepted) (after : Db) : Type 0 where
  pub row : Upload
  pub saved : after.upload ≡ some row
  pub done : row.status ≡ completed
  pub owner : row.owner_id ≡ upload.owner_id
  pub recorded : row.document_id ≡ some fresh.document_id
  pub sha : row.file_sha256 ≡ some digest
  pub replied : reply.document_id ≡ fresh.document_id
  pub used : after.storage_used_bytes ≡ db.storage_used_bytes + size
  pub within_quota : after.storage_used_bytes ≤ settings.storage_quota_bytes
  pub one_document : length after.documents ≡ suc (length db.documents)
  pub one_job : length after.jobs ≡ suc (length db.jobs)
  pub document : Document
  pub listed : find_document fresh.document_id after.documents ≡ some document
  pub named : document.id ≡ fresh.document_id

length-map_jobs : (f : Job → Job) (js : List Job) → length (map f js) ≡ length js
length-map_jobs f [] = refl
length-map_jobs f (j ∷ js) = ap suc (length-map_jobs f js)

mark_failed : Fresh → Document → Document
mark_failed fresh d =
    if d.id == fresh.document_id
    then record d { status = failed; error_message = some queue_failed_message }
    else d

mark_failed-id : (fresh : Fresh) (d : Document) → (mark_failed fresh d).id ≡ d.id
unfolding mark_failed
mark_failed-id fresh d = ground arith

module _ (settings : Settings) (fails : Key → Bool) (now : ℕ) (upload : Upload) (fresh : Fresh)
    (size digest : ℕ) (batch_id : Option ℕ) (batches : List Batch) (db : Db)
    (reply : Accepted) where
  -- The rows after the commit and the enqueueing, whether or not the latter failed.
  commit-IsFinalized :
      (queue_fails : Bool)
      → db.storage_used_bytes + size ≤ settings.storage_quota_bytes
      → reply.document_id ≡ fresh.document_id
      → IsFinalized settings upload fresh size digest db reply (
          discard_chunks fails (
            enqueued queue_fails fresh
              (completed_rows settings now upload fresh batch_id size digest batches db)))
  unfolding discard_chunks enqueued completed_rows mark_failed
  commit-IsFinalized false fits answers =
      let (d, found, named) = find_document-append fresh.document_id db.documents _ refl in
      record {
        row = _;
        saved = refl;
        done = refl;
        owner = refl;
        recorded = refl;
        sha = refl;
        replied = answers;
        used = refl;
        within_quota = fits;
        one_document = length-append_one db.documents _;
        one_job = rw length-map_jobs;
        document = d;
        listed = found;
        named = named;
      }
  commit-IsFinalized true fits answers =
      let (d, found, named) = find_document-append fresh.document_id db.documents _ refl in
      record {
        row = _;
        saved = refl;
        done = refl;
        owner = refl;
        recorded = refl;
        sha = refl;
        replied = answers;
        used = refl;
        within_quota = fits;
        one_document = length-map_documents _ _ ∙ length-append_one db.documents _;
        one_job = rw length-map_jobs;
        document = mark_failed fresh d;
        listed =
            find_document-map fresh.document_id (mark_failed fresh) (mark_failed-id fresh) _ d
              found;
        named = mark_failed-id fresh d ∙ named;
      }

module _ (settings : Settings) (faults : Faults) (now : ℕ) (payload : Finalize) (upload : Upload)
    (fresh : Fresh) (size digest : ℕ) (batch_id : Option ℕ) (db : Db) (reply : Accepted) where
  pub finalize_locked-IsFinalized :
      (finalize_locked settings faults now payload upload fresh size digest batch_id db).0
        ≡ ok reply
      → IsFinalized settings upload fresh size digest db reply
          (finalize_locked settings faults now payload upload fresh size digest batch_id db).1
  unfolding finalize_locked withdraw
  finalize_locked-IsFinalized =
      elim (Bool-cases (
        not payload.allow_duplicate
        && not (is_none (identical_document upload.owner_id digest db.documents)))) [
          | inl duplicate ↦ rw duplicate (λ h. cc)
          | inr new ↦
              rw new
                (elim (Bool-cases
                  (ltb settings.storage_quota_bytes (db.storage_used_bytes + size))) [
                    | inl over ↦ rw over (λ h. cc)
                    | inr fits ↦
                        rw fits
                          (elim (Result-cases (batch_rows upload.owner_id batch_id db.batches)) [
                            | inl (refusal, stopped) ↦ rw stopped (λ h. cc)
                            | inr (batches, joined) ↦ rw joined (λ h.
                                commit-IsFinalized settings faults.delete_fails now upload fresh
                                  size digest batch_id batches db reply faults.queue_fails
                                  (ground arith) (ground arith))
                          ])
                  ])
        ]
