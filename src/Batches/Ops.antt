-- ===== src/Batches/Ops.antt =====
-- Sealing, progress, claiming and acknowledging of batches
-- (backend/app/services/batch_notifications.py, backend/app/api/v1/endpoints/documents.py).
-- `t <= now - seconds` is written with the sum on the left.
use yarrow.Prelude.{
  ℕ, suc, ◌+◌, max, Bool, true, false, not, ◌&&◌, ◌||◌, Option, none, some, List, [], ◌∷◌, ◌++◌,
  map, ltb, leb, ◌==◌, if◌then◌else◌, or_else, is_none, length, keep, elem, count_of, find_first,
}
use yarrow.Prelude.Sorting.{sort_by}
use yarrow.Status.{
  Status, queued, processing, completed, failed, canceled, other, is_terminal, is_completed,
  is_failed, is_canceled,
}
use yarrow.Batches.Model.{
  Batch, Document, Settings, Db, Notification, Notifications, Counts, Progress,
}

-- `done == total` over the counts of the statuses that are final.
unfoldable pub is_finished : Counts → Bool
is_finished counts =
    let total =
      counts.queued + counts.processing + counts.completed + counts.failed + counts.canceled in
    let done = counts.completed + counts.failed + counts.canceled in ltb 0 total && done == total

-- `t <= now - seconds`, and no for a missing time.
abbrev pub is_past : ℕ → ℕ → Option ℕ → Bool
is_past seconds now none = false
is_past seconds now (some t) = leb (t + seconds) now

unfoldable pub is_sealed : Settings → Batch → Option ℕ → ℕ → Bool
is_sealed settings batch newest_upload now =
    if not (is_none batch.sealed_at) then true else is_past settings.seal_timeout now newest_upload

unfoldable pub seal_batch : ℕ → Batch → Batch
seal_batch now batch =
    if is_none batch.sealed_at then record batch { sealed_at = some now } else batch

unfoldable pub sync_completed_at : ℕ → Bool → Batch → Batch
sync_completed_at now finished batch =
    if finished && is_none batch.completed_at
    then record batch { completed_at = some now }
    else if not finished && not (is_none batch.completed_at)
    then record batch { completed_at = none }
    else batch

-- The documents of a batch that are not in the trash.
abbrev pub in_batch : ℕ → Document → Bool
in_batch batch_id document =
    elim document.batch_id [ none ↦ false | some id ↦ id == batch_id ]
    && is_none document.deleted_at

abbrev pub live_of : ℕ → List Document → List Document
live_of batch_id = keep (in_batch batch_id)

-- A status outside the vocabulary, null among them, is counted as queued.
abbrev pub no_counts : Counts
no_counts = record { queued = 0; processing = 0; completed = 0; failed = 0; canceled = 0 }

abbrev pub count_status : Option Status → Counts → Counts
count_status none counts = record counts { queued = suc counts.queued }
count_status (some queued) counts = record counts { queued = suc counts.queued }
count_status (some processing) counts = record counts { processing = suc counts.processing }
count_status (some completed) counts = record counts { completed = suc counts.completed }
count_status (some failed) counts = record counts { failed = suc counts.failed }
count_status (some canceled) counts = record counts { canceled = suc counts.canceled }
count_status (some (other _)) counts = record counts { queued = suc counts.queued }

unfoldable pub count_statuses : List Document → Counts
count_statuses [] = no_counts
count_statuses (document ∷ documents) = count_status document.status (count_statuses documents)

-- `max(..., default=None)` over the times that are there.
abbrev pub later_of : Option ℕ → Option ℕ → Option ℕ
later_of none o = o
later_of (some a) none = some a
later_of (some a) (some b) = some (max a b)

unfoldable pub newest : List Document → Option ℕ
newest [] = none
newest (document ∷ documents) = later_of document.created_at (newest documents)

-- Change the batches with an id.
abbrev pub replace : ℕ → (Batch → Batch) → List Batch → List Batch
replace id f = map (λ (b : Batch). if b.id == id then f b else b)

-- `_owned_batch`: none is a 404.
unfoldable pub owned_batch : ℕ → ℕ → Db → Option Batch
owned_batch batch_id owner_id db = elim (find_first (λ (b : Batch). b.id == batch_id) db.batches) [
  | none ↦ none
  | some batch ↦ if batch.owner_id == owner_id then some batch else none
]

unfoldable pub seal_upload_batch : ℕ → ℕ → ℕ → Db → Option Batch × Db
seal_upload_batch now batch_id owner_id db = elim (owned_batch batch_id owner_id db) [
  | none ↦ (none, db)
  | some batch ↦ (
    some (seal_batch now batch),
    record db { batches = replace batch_id (seal_batch now) db.batches },
  )
]

-- What the Python code finds of a batch, from the counts of its statuses.
unfoldable pub detected : Settings → ℕ → List Document → Batch → Bool
detected settings now documents batch =
    let live = live_of batch.id documents in
    is_finished (count_statuses live) && is_sealed settings batch (newest live) now

abbrev pub progress_of : List Document → Batch → Progress
progress_of documents batch =
    let counts = count_statuses (live_of batch.id documents) in
    record {
      batch_id = batch.id;
      total =
          counts.queued + counts.processing + counts.completed + counts.failed + counts.canceled;
      created_at = batch.created_at;
      completed_at = batch.completed_at;
      counts = counts;
    }

unfoldable pub get_batch_progress : Settings → ℕ → ℕ → ℕ → Db → Option Progress × Db
get_batch_progress settings now batch_id owner_id db = elim (owned_batch batch_id owner_id db) [
  | none ↦ (none, db)
  | some batch ↦
      let sync = sync_completed_at now (detected settings now db.documents batch) in
      (
        some (progress_of db.documents (sync batch)),
        record db { batches = replace batch_id sync db.batches },
      )
]

-- `status IN` and `status NOT IN`, both null, so not true, for a null status.
abbrev pub has_status : (Status → Bool) → Option Status → Bool
has_status test none = false
has_status test (some s) = test s

abbrev pub not_final : Option Status → Bool
not_final = has_status (λ s. not (is_terminal s))

-- What the query of a claim finds of a batch.
unfoldable pub finished : Settings → ℕ → List Document → Batch → Bool
finished settings now documents batch =
    let live = live_of batch.id documents in
    ltb 0 (length live)
    && count_of (λ (d : Document). not_final d.status) live == 0
    && (not (is_none batch.sealed_at) || is_past settings.seal_timeout now (newest live))

unfoldable pub claimable : Settings → ℕ → ℕ → Batch → Bool
claimable settings now owner_id batch =
    batch.owner_id == owner_id
    && is_none batch.notified_at
    && (is_none batch.claimed_at || is_past settings.lease now batch.claimed_at)

unfoldable pub offered : Settings → ℕ → ℕ → List Document → Batch → Bool
offered settings now owner_id documents batch =
    claimable settings now owner_id batch && finished settings now documents batch

abbrev pub claim : ℕ → Batch → Batch
claim now batch = record batch {
  claimed_at = some now;
  completed_at = some (or_else batch.completed_at now);
}

unfoldable pub notification : List Document → Batch → Notification
notification documents batch =
    let live = live_of batch.id documents in
    record {
      batch_id = batch.id;
      total = length live;
      completed = count_of (λ (d : Document). has_status is_completed d.status) live;
      failed = count_of (λ (d : Document). has_status is_failed d.status) live;
      canceled = count_of (λ (d : Document). has_status is_canceled d.status) live;
      created_at = batch.created_at;
      completed_at = batch.completed_at;
    }

abbrev pub claim_order : ℕ → Batch → Batch → Bool
claim_order now a b = leb (or_else a.created_at now) (or_else b.created_at now)

unfoldable pub claim_batch_notifications : Settings → ℕ → ℕ → Db → Notifications × Db
claim_batch_notifications settings now owner_id db =
    let claimed = map (claim now) (keep (offered settings now owner_id db.documents) db.batches) in
    (
      record {
        notifications = map (notification db.documents) (sort_by (claim_order now) claimed);
        pending =
            count_of
              (λ (b : Batch).
                b.owner_id == owner_id
                && is_none b.notified_at
                && ltb 0 (length (live_of b.id db.documents)))
              db.batches;
      },
      record db {
        batches =
            map (λ b. if offered settings now owner_id db.documents b then claim now b else b)
              db.batches;
      },
    )

abbrev pub acknowledgeable : ℕ → List ℕ → Batch → Bool
acknowledgeable owner_id ids batch =
    elem batch.id ids
    && batch.owner_id == owner_id
    && is_none batch.notified_at
    && not (is_none batch.claimed_at)

unfoldable pub acknowledge_batch_notifications : ℕ → ℕ → List ℕ → Db → List ℕ × Db
acknowledge_batch_notifications now owner_id ids db = (
  map (λ (b : Batch). b.id) (keep (acknowledgeable owner_id ids) db.batches),
  record db {
    batches =
        map (λ b. if acknowledgeable owner_id ids b then record b { notified_at = some now } else b)
          db.batches;
  },
)

-- A file that joins opens its batch again; one that is not there yet is made.
abbrev pub reopened : Batch → Batch
reopened batch = record batch { completed_at = none; sealed_at = none; claimed_at = none }

unfoldable pub get_or_create_batch : ℕ → ℕ → ℕ → Db → Option Batch × Db
get_or_create_batch now owner_id batch_id db =
    let made : Batch = record {
      id = batch_id;
      owner_id = owner_id;
      created_at = some now;
      sealed_at = none;
      completed_at = none;
      claimed_at = none;
      notified_at = none;
    } in
    elim (find_first (λ (b : Batch). b.id == batch_id) db.batches) [
      | none ↦ (some made, record db { batches = db.batches ++ made ∷ [] })
      | some batch ↦
          if batch.owner_id == owner_id
          then (some (reopened batch), record db { batches = replace batch_id reopened db.batches })
          else (none, db)
    ]
