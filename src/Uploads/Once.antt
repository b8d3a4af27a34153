-- ===== src/Uploads/Once.antt =====
-- A finalize stores one document, within the quota, and a repeated one gives it back
-- (backend/app/api/v1/endpoints/uploads.py).
use yarrow.Prelude.{
  ℕ, ◌≡◌, ◌∙◌, ap, sym, refl, inl, inr, false, not, ◌&&◌, Option, none, some, arith, Bool-cases,
  Option-cases, ==_iff, ◌==◌, length, is_none, List, find_first-passes,
}
use yarrow.Status.{is_completed}
use yarrow.Uploads.Model.{
  Settings, Externals, Upload, Document, Db, ok, document_object, put_object,
}
use yarrow.Uploads.Chunks.{Faults, load, require_open, fail}
use yarrow.Uploads.Put.{Result-cases}
use yarrow.Uploads.Finalize.{
  Finalize, Accepted, Assembled, Fresh, finalize_upload, finalize_loaded, finalize_open,
  finalize_file, finalize_locked, withdraw, identical_document, file_problem, check_batch, assemble,
  empty_file, download, keys_in_order, differs, finish_again, join_batch, accepted_for,
  find_document,
}
use yarrow.Uploads.Committed.{IsFinalized, finalize_locked-IsFinalized}

-- The rows that a finalize held when it took the user's lock.
abbrev pub at_lock : (Db → Db) → Fresh → Assembled → Db → Db
at_lock meanwhile fresh file db =
    meanwhile
      (record db { objects = put_object (document_object fresh.document_id) file.spool db.objects })

module _ (settings : Settings) (externals : Externals) (faults : Faults) (meanwhile : Db → Db)
    (now : ℕ) (payload : Finalize) (upload : Upload) (fresh : Fresh) (db : Db)
    (reply : Accepted) where
  finalize_file-IsFinalized :
      (file : Assembled)
      → (finalize_file settings externals faults meanwhile now payload upload fresh file db).0
        ≡ ok reply
      → IsFinalized settings upload fresh file.size
          (externals.sha256 file.spool)
          (at_lock meanwhile fresh file db)
          reply
          (finalize_file settings externals faults meanwhile now payload upload fresh file db).1
  unfolding finalize_file fail finalize_locked withdraw
  finalize_file-IsFinalized file =
      let digest = externals.sha256 file.spool in
      let batch_id : Option ℕ = elim payload.batch_id [
        | none ↦ upload.batch_id
        | some id ↦ some id
      ] in
      elim (Option-cases
        (file_problem settings payload upload file.size digest (externals.guess file.header))) [
          | inr (reason, bad) ↦ rw (bad, finalize_file) (λ h. cc)
          | inl fine ↦
              rw (fine, finalize_file)
                (elim (Result-cases (check_batch upload.owner_id batch_id db)) [
                  | inl (refusal, stopped) ↦ rw stopped (λ h. cc)
                  | inr (_, checked) ↦
                      rw checked
                        (elim (Bool-cases (
                          not payload.allow_duplicate
                          && not
                              (is_none (identical_document upload.owner_id digest db.documents)))) [
                                | inl duplicate ↦ rw duplicate (λ h. cc)
                                | inr new ↦ rw new (elim (Bool-cases faults.upload_fails) [
                                  | inl down ↦ rw down (λ h. cc)
                                  | inr up ↦ rw up (
                                      finalize_locked-IsFinalized settings faults now payload upload
                                        fresh file.size digest batch_id
                                        (at_lock meanwhile fresh file db) reply)
                                ])
                              ])
                ])
        ]

  finalize_open-IsFinalized :
      (finalize_open settings externals faults meanwhile now payload upload fresh db).0 ≡ ok reply
      → (file : Assembled) × (assemble
            (download faults db.objects)
            empty_file
            (keys_in_order db.chunks)
          ≡ some file)
        × (length db.chunks ≡ upload.chunk_count)
        × IsFinalized settings upload fresh file.size
            (externals.sha256 file.spool)
            (at_lock meanwhile fresh file db)
            reply
            (finalize_open settings externals faults meanwhile now payload upload fresh db).1
  unfolding finalize_open
  finalize_open-IsFinalized = elim (Bool-cases (length db.chunks == upload.chunk_count)) [
    | inr missing ↦ rw missing (λ h. cc)
    | inl complete ↦
        rw complete
          (elim (Option-cases
            (assemble (download faults db.objects) empty_file (keys_in_order db.chunks))) [
              | inl broken ↦ rw broken (λ h. cc)
              | inr (file, built) ↦
                  rw built
                    (λ h. (file, refl, (==_iff _ _).0 complete, finalize_file-IsFinalized file h))
            ])
  ]

-- A finalize of an unfinished session that goes through has found every chunk, and with the rows it
-- held under the user's lock it adds one document and one job, adds the assembled size to the used
-- space and stays within the quota, and completes the session with the document's id and the digest
-- of the assembled bytes.
pub finalize_upload-IsFinalized :
    (settings : Settings) (externals : Externals) (faults : Faults) (meanwhile : Db → Db)
    (now owner_id : ℕ) (payload : Finalize) (fresh : Fresh) (upload : Upload) (db : Db)
    (reply : Accepted)
    → load owner_id db ≡ ok upload
    → is_completed upload.status ≡ false
    → (finalize_upload settings externals faults meanwhile now owner_id payload fresh db).0
      ≡ ok reply
    → (file : Assembled) × (assemble
          (download faults db.objects)
          empty_file
          (keys_in_order db.chunks)
        ≡ some file)
      × (length db.chunks ≡ upload.chunk_count)
      × IsFinalized settings upload fresh file.size
          (externals.sha256 file.spool)
          (at_lock meanwhile fresh file db)
          reply
          (finalize_upload settings externals faults meanwhile now owner_id payload fresh db).1
unfolding finalize_upload finalize_loaded
finalize_upload-IsFinalized settings externals faults meanwhile now owner_id payload fresh upload db
      reply loaded unfinished =
    rw loaded (
      rw unfinished (elim (Result-cases (require_open now upload)) [
        | inl (refusal, stopped) ↦ rw stopped (λ h. cc)
        | inr (_, opened) ↦ rw opened (
            finalize_open-IsFinalized settings externals faults meanwhile now payload upload fresh
              db reply)
      ]))

-- A finalized session answers the next finalize from its record.
finished_again :
    (settings : Settings) (upload : Upload) (fresh : Fresh) (size digest owner_id : ℕ)
    (payload : Finalize) (db after mid : Db) (reply : Accepted) (document : Document)
    → (f : IsFinalized settings upload fresh size digest db reply after)
    → find_document fresh.document_id mid.documents ≡ some document
    → differs payload.sha256 (some digest) ≡ false
    → payload.batch_id ≡ none
    → finish_again owner_id payload f.row mid ≡ (ok (accepted_for mid.jobs document), mid)
unfolding finish_again join_batch
finished_again settings upload fresh size digest owner_id payload db after mid reply document f
      there agrees alone =
    ground (arith, f.recorded, there, f.sha)

owner_of_load :
    (owner_id : ℕ) (db : Db) (u : Upload) → load owner_id db ≡ ok u → u.owner_id ≡ owner_id
unfolding load
owner_of_load owner_id db u h = ground arith

load_saved :
    (owner_id : ℕ) (db : Db) (u : Upload)
    → db.upload ≡ some u
    → u.owner_id ≡ owner_id
    → load owner_id db ≡ ok u
unfolding load
load_saved owner_id db u saved mine = ground arith

finalize_finished :
    (settings : Settings) (externals : Externals) (faults : Faults) (meanwhile : Db → Db)
    (later owner_id : ℕ) (payload : Finalize) (again : Fresh) (upload : Upload) (fresh : Fresh)
    (size digest : ℕ) (db after mid : Db) (reply : Accepted) (document : Document)
    → (f : IsFinalized settings upload fresh size digest db reply after)
    → upload.owner_id ≡ owner_id
    → mid.upload ≡ after.upload
    → find_document fresh.document_id mid.documents ≡ some document
    → differs payload.sha256 (some digest) ≡ false
    → payload.batch_id ≡ none
    → finalize_upload settings externals faults meanwhile later owner_id payload again mid
      ≡ (ok (accepted_for mid.jobs document), mid)
unfolding finalize_upload finalize_loaded
finalize_finished settings externals faults meanwhile later owner_id payload again upload fresh size
      digest db after mid reply document f mine kept there agrees alone =
    rw (load_saved owner_id mid f.row (kept ∙ f.saved) (f.owner ∙ mine))
      (elim (Bool-cases (is_completed f.row.status)) [
        | inl finished ↦ rw finished (
            finished_again settings upload fresh size digest f.row.owner_id payload db after mid
              reply document f there agrees alone)
        | inr unfinished ↦ absurd (cc (ap is_completed f.done))
      ])

found_document-id :
    (id : ℕ) (documents : List Document) (d : Document)
    → find_document id documents ≡ some d
    → d.id ≡ id
found_document-id id documents d there =
    (==_iff d.id id).0 (find_first-passes (λ (d : Document). d.id == id) d documents there)

-- Once a finalize of an unfinished session has gone through, a later finalize that names no run and
-- no other checksum is accepted with the same document and changes nothing, whatever the store and
-- the queue do and whatever others have committed since, as long as the session's row is as the
-- first finalize left it and the document's row is still there.
pub finalize_once :
    (settings : Settings) (externals : Externals) (faults faults' : Faults)
    (meanwhile meanwhile' : Db → Db) (now later owner_id : ℕ) (payload payload' : Finalize)
    (fresh fresh' : Fresh) (upload : Upload) (db mid : Db) (reply : Accepted) (file : Assembled)
    (document : Document)
    → load owner_id db ≡ ok upload
    → is_completed upload.status ≡ false
    → assemble (download faults db.objects) empty_file (keys_in_order db.chunks) ≡ some file
    → (finalize_upload settings externals faults meanwhile now owner_id payload fresh db).0
      ≡ ok reply
    → mid.upload
      ≡ (finalize_upload settings externals faults meanwhile now owner_id payload fresh db).1.upload
    → find_document reply.document_id mid.documents ≡ some document
    → differs payload'.sha256 (some (externals.sha256 file.spool)) ≡ false
    → payload'.batch_id ≡ none
    → (reply' : Accepted) × (finalize_upload settings externals faults' meanwhile' later owner_id
          payload' fresh' mid
        ≡ (ok reply', mid))
      × (reply'.document_id ≡ reply.document_id)
unfolding accepted_for
finalize_once settings externals faults faults' meanwhile meanwhile' now later owner_id payload
      payload' fresh fresh' upload db mid reply file document loaded unfinished built went kept
      there agrees alone =
    let (file', built', complete, f) =
      finalize_upload-IsFinalized settings externals faults meanwhile now owner_id payload fresh
        upload db reply loaded unfinished went in
    let same : file' ≡ file = cc in
    let digest = ap (λ (x : Assembled). externals.sha256 x.spool) same in
    let found : find_document fresh.document_id mid.documents ≡ some document =
      ap (λ id. find_document id mid.documents) (sym f.replied) ∙ there in
    (
      accepted_for mid.jobs document,
      finalize_finished settings externals faults' meanwhile' later owner_id payload' fresh' upload
          fresh _ _ _ _ mid reply document f (owner_of_load owner_id db upload loaded) kept found
          (ap (λ d. differs payload'.sha256 (some d)) digest ∙ agrees) alone,
      found_document-id reply.document_id mid.documents document there,
    )
