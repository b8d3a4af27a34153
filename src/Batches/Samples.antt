-- ===== src/Batches/Samples.antt =====
-- A sealed batch of two files that are done, and the theorems applied to it.
use yarrow.Prelude.{
  ◌&&◌, ◌==◌, count_of, is_none, ◌≡◌, refl, true, false, none, some, [], ◌∷◌, elem, arith,
}
use yarrow.Status.{completed, failed}
use yarrow.Batches.Model.{Batch, Document, Settings, Db}
use yarrow.Batches.Ops.{
  live_of, count_statuses, is_finished, detected, finished, offered, claimable, newest,
  claim_batch_notifications, acknowledge_batch_notifications, get_or_create_batch, notification,
}
use yarrow.Batches.Detection.{detected-finished}
use yarrow.Batches.Rows.{Distinct}
use yarrow.Batches.Steps.{here, next, joining, still, claimed, joined, Holding}
use yarrow.Batches.Announcing.{answered_ids, acknowledged_for_good}
use yarrow.Batches.Leases.{offered_once, offered_again}

abbrev settings : Settings
settings = record { seal_timeout = 600; lease = 60 }

abbrev batch : Batch
batch = record {
  id = 3;
  owner_id = 7;
  created_at = some 5;
  sealed_at = some 10;
  completed_at = none;
  claimed_at = none;
  notified_at = none;
}

abbrev rows : Db
rows = record {
  documents =
      record { batch_id = some 3; status = some completed; deleted_at = none; created_at = some 6 }
      ∷ record { batch_id = some 3; status = some failed; deleted_at = none; created_at = some 7 }
      ∷ record { batch_id = none; status = some failed; deleted_at = none; created_at = none }
      ∷ [];
  batches = batch ∷ record batch { id = 4; sealed_at = none } ∷ [];
}

rows-Distinct : Distinct rows.batches
unfolding Distinct
rows-Distinct = ((refl, tt), (tt, tt))

abbrev shown : Db
shown = (claim_batch_notifications settings 100 7 rows).1

shown-Distinct : Distinct shown.batches
unfolding Distinct claim_batch_notifications offered claimable finished newest
shown-Distinct = ((refl, tt), (tt, tt))

claims : elem 3 (answered_ids settings 100 7 rows) ≡ true
unfolding claim_batch_notifications offered claimable finished newest notification
claims = refl

acknowledges : elem 3 (acknowledge_batch_notifications 110 7 (3 ∷ []) shown).0 ≡ true
unfolding acknowledge_batch_notifications claim_batch_notifications offered claimable finished
    newest
acknowledges = refl

detected-finished_example : detected settings 100 rows.documents batch ≡ (
    finished settings 100 rows.documents batch
    && count_of (λ (d : Document). is_none d.status) (live_of 3 rows.documents) == 0)
detected-finished_example = detected-finished settings 100 rows.documents batch

-- With a file whose status is null, the claim goes through and the progress finds the batch unfinished.
abbrev with_null : Db
with_null = record rows {
  documents =
      record { batch_id = some 3; status = none; deleted_at = none; created_at = some 8 }
      ∷ rows.documents;
}

null_status :
    (detected settings 100 with_null.documents batch ≡ false)
    × (finished settings 100 with_null.documents batch ≡ true)
unfolding detected finished count_statuses newest is_finished
null_status = (refl, refl)

acknowledged_for_good_example :
    elem 3 (
      answered_ids settings 900 7
        (get_or_create_batch 200 7 3 (acknowledge_batch_notifications 110 7 (3 ∷ []) shown).1).1)
    ≡ false
acknowledged_for_good_example =
    acknowledged_for_good settings 3 110 7 (3 ∷ []) shown
      (get_or_create_batch 200 7 3 (acknowledge_batch_notifications 110 7 (3 ∷ []) shown).1).1 900 7
      shown-Distinct acknowledges (next here (joining 200 7 3))

-- Another tab asks, and a file joins another batch.
abbrev later : Db
later = (get_or_create_batch 125 7 9 (claim_batch_notifications settings 120 7 shown).1).1

other_tab : Holding settings 3 100 shown later
other_tab = joined 125 7 9 (claimed 120 7 still (omega arith)) refl

offered_once_example : elem 3 (answered_ids settings 150 7 later) ≡ false
offered_once_example =
    offered_once settings 3 100 7 rows later 150 7 rows-Distinct claims other_tab (omega arith)

offered_again_example : elem 3 (answered_ids settings 170 7 later) ≡ true
offered_again_example =
    offered_again settings 3 100 7 rows later 170 rows-Distinct claims other_tab (omega arith)
