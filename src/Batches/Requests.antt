-- ===== src/Batches/Requests.antt =====
-- What sealing, reading and joining keep of a batch
-- (backend/app/services/batch_notifications.py, backend/app/api/v1/endpoints/documents.py).
use yarrow.Prelude.{
  ℕ, ◌≡◌, refl, Bool, true, false, not, ◌&&◌, Option, none, some, ◌==◌, is_none, find_first, arith,
  Bool-cases, Option-cases, inl, inr,
}
use yarrow.Batches.Model.{Batch, Settings, Db}
use yarrow.Batches.Ops.{
  replace, seal_batch, sync_completed_at, owned_batch, seal_upload_batch, get_batch_progress,
  reopened, get_or_create_batch,
}
use yarrow.Batches.Rows.{Surely, append-Surely, Keeps, Turns, map-Surely, if-Keeps}

-- The rows after a change of a batch that its owner may make.
owned-Surely :
    (test : Batch → Bool) (id other_id owner_id : ℕ) (f : Batch → Batch) (db : Db)
    → ((b : Batch) → ((f b).id ≡ b.id) × ((b.id == id) ≡ true → test b ≡ true → test (f b) ≡ true))
    → Surely test id db.batches
    → Surely test id (replace other_id f db.batches)
owned-Surely test id other_id owner_id f db keeps h =
    map-Surely test id _ db.batches (if-Keeps test id (λ b. b.id == other_id) f (λ b _. keeps b)) h

-- A test that sealing a batch and recording when it finished do not fail.
unfoldable pub IsStable : (Batch → Bool) → Type 0
IsStable test =
    (b : Batch)
    → test b ≡ true
    → ((now : ℕ) → test (record b { sealed_at = some now }) ≡ true)
      × ((completed_at : Option ℕ) → test (record b { completed_at = completed_at }) ≡ true)

module _ (settings : Settings) (test : Batch → Bool) (stable : IsStable test) (id : ℕ) where
  seal_batch-Keeps : (now : ℕ) → Keeps test id (seal_batch now)
  unfolding seal_batch Keeps Turns IsStable
  seal_batch-Keeps now b = elim (Bool-cases (is_none b.sealed_at)) [
    | inl unsealed ↦ rw unsealed (refl, λ same h. (stable b h).0 now)
    | inr done ↦ rw done (refl, λ same h. h)
  ]

  sync_completed_at-Keeps : (now : ℕ) (ready : Bool) → Keeps test id (sync_completed_at now ready)
  unfolding sync_completed_at Keeps Turns IsStable
  sync_completed_at-Keeps now ready b = elim (Bool-cases (ready && is_none b.completed_at)) [
    | inl first ↦ rw first (refl, λ same h. (stable b h).1 (some now))
    | inr other ↦ elim (Bool-cases (not ready && not (is_none b.completed_at))) [
      | inl again ↦ rw (other, again) (refl, λ same h. (stable b h).1 none)
      | inr unchanged ↦ rw (other, unchanged) (refl, λ same h. h)
    ]
  ]

  pub sealing-Surely :
      (now other_id owner_id : ℕ) (db : Db)
      → Surely test id db.batches
      → Surely test id (seal_upload_batch now other_id owner_id db).1.batches
  unfolding seal_upload_batch Keeps Turns
  sealing-Surely now other_id owner_id db h =
      elim (Option-cases (owned_batch other_id owner_id db)) [
        | inl missing ↦ rw (missing, seal_upload_batch) h
        | inr (b, found) ↦
            rw (found, seal_upload_batch)
              (owned-Surely test id other_id owner_id (seal_batch now) db (seal_batch-Keeps now) h)
      ]

  pub reading-Surely :
      (now other_id owner_id : ℕ) (db : Db)
      → Surely test id db.batches
      → Surely test id (get_batch_progress settings now other_id owner_id db).1.batches
  unfolding get_batch_progress Keeps Turns
  reading-Surely now other_id owner_id db h =
      elim (Option-cases (owned_batch other_id owner_id db)) [
        | inl missing ↦ rw (missing, get_batch_progress) h
        | inr (b, found) ↦
            rw (found, get_batch_progress)
              (owned-Surely test id other_id owner_id _ db (sync_completed_at-Keeps now _) h)
      ]

-- Neither changes the files.
pub sealing_documents :
    (now other_id owner_id : ℕ) (db : Db)
    → (seal_upload_batch now other_id owner_id db).1.documents ≡ db.documents
unfolding seal_upload_batch
sealing_documents now other_id owner_id db =
    elim (Option-cases (owned_batch other_id owner_id db)) [
      | inl missing ↦ rw (missing, seal_upload_batch) refl
      | inr (b, found) ↦ rw (found, seal_upload_batch) refl
    ]

pub reading_documents :
    (settings : Settings) (now other_id owner_id : ℕ) (db : Db)
    → (get_batch_progress settings now other_id owner_id db).1.documents ≡ db.documents
unfolding get_batch_progress
reading_documents settings now other_id owner_id db =
    elim (Option-cases (owned_batch other_id owner_id db)) [
      | inl missing ↦ rw (missing, get_batch_progress) refl
      | inr (b, found) ↦ rw (found, get_batch_progress) refl
    ]

-- A file that joins another batch leaves this one alone.
pub joining_other-Surely :
    (test : Batch → Bool) (id now owner_id other_id : ℕ) (db : Db)
    → (other_id == id) ≡ false
    → Surely test id db.batches
    → Surely test id (get_or_create_batch now owner_id other_id db).1.batches
unfolding get_or_create_batch
joining_other-Surely test id now owner_id other_id db apart h =
    elim (Option-cases (find_first (λ (b : Batch). b.id == other_id) db.batches)) [
      | inl absent ↦ rw (absent, get_or_create_batch) (append-Surely test id _ db.batches apart h)
      | inr (b, found) ↦
          rw (found, get_or_create_batch)
            (elim (Bool-cases (b.owner_id == owner_id)) [
              | inl owner ↦ rw owner (
                  map-Surely test id _ db.batches
                    (if-Keeps test id (λ b. b.id == other_id) reopened
                      (λ b found. (refl, λ same _. absurd (ground (arith, found, same, apart)))))
                    h)
              | inr foreign ↦ rw foreign h
            ])
    ]

pub joining_documents :
    (now owner_id other_id : ℕ) (db : Db)
    → (get_or_create_batch now owner_id other_id db).1.documents ≡ db.documents
unfolding get_or_create_batch
joining_documents now owner_id other_id db =
    elim (Option-cases (find_first (λ (b : Batch). b.id == other_id) db.batches)) [
      | inl absent ↦ rw (absent, get_or_create_batch) refl
      | inr (b, found) ↦
          rw (found, get_or_create_batch)
            (elim (Bool-cases (b.owner_id == owner_id)) [
              | inl owner ↦ rw owner refl
              | inr foreign ↦ rw foreign refl
            ])
    ]
