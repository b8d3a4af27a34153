-- ===== src/Batches/Steps.antt =====
-- The requests on the batches of all users as steps, each with its own time
-- (backend/app/services/batch_notifications.py, backend/app/api/v1/endpoints/documents.py).
use yarrow.Prelude.{ℕ, ◌+◌, ◌<◌, ◌≡◌, ◌==◌, false, List, elem}
use yarrow.Batches.Model.{Document, Settings, Db}
use yarrow.Batches.Ops.{
  live_of, seal_upload_batch, get_batch_progress, claim_batch_notifications,
  acknowledge_batch_notifications, get_or_create_batch,
}

module _ (settings : Settings) where
  pub data Step (db : Db) : Db → Type 0 where
    sealing : (now id owner_id : ℕ) → Step db (seal_upload_batch now id owner_id db).1
    reading : (now id owner_id : ℕ) → Step db (get_batch_progress settings now id owner_id db).1
    claiming : (now owner_id : ℕ) → Step db (claim_batch_notifications settings now owner_id db).1
    acknowledging :
        (now owner_id : ℕ) (ids : List ℕ)
        → Step db (acknowledge_batch_notifications now owner_id ids db).1
    joining : (now owner_id id : ℕ) → Step db (get_or_create_batch now owner_id id db).1
    working : (documents : List Document) → Step db (record db { documents = documents })

  pub data Reach (db : Db) : Db → Type 0 where
    here : Reach db db
    next : {mid last : Db} → Reach db mid → Step mid last → Reach db last

  -- The steps while a tab holds a batch that was claimed at a time: claims come before its lease
  -- ends, files join other batches only, its files stay as they are, and nobody acknowledges it.
  pub data Holding (id claimed_at : ℕ) (db : Db) : Db → Type 0 where
    still : Holding id claimed_at db db
    sealed :
        {mid : Db} (now other_id owner_id : ℕ)
        → Holding id claimed_at db mid
        → Holding id claimed_at db (seal_upload_batch now other_id owner_id mid).1
    read :
        {mid : Db} (now other_id owner_id : ℕ)
        → Holding id claimed_at db mid
        → Holding id claimed_at db (get_batch_progress settings now other_id owner_id mid).1
    claimed :
        {mid : Db} (now owner_id : ℕ)
        → Holding id claimed_at db mid
        → now < claimed_at + settings.lease
        → Holding id claimed_at db (claim_batch_notifications settings now owner_id mid).1
    acknowledged :
        {mid : Db} (now owner_id : ℕ) (ids : List ℕ)
        → Holding id claimed_at db mid
        → elem id ids ≡ false
        → Holding id claimed_at db (acknowledge_batch_notifications now owner_id ids mid).1
    joined :
        {mid : Db} (now owner_id other_id : ℕ)
        → Holding id claimed_at db mid
        → (other_id == id) ≡ false
        → Holding id claimed_at db (get_or_create_batch now owner_id other_id mid).1
    worked :
        {mid : Db} (documents : List Document)
        → Holding id claimed_at db mid
        → live_of id documents ≡ live_of id mid.documents
        → Holding id claimed_at db (record mid { documents = documents })
