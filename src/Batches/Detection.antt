-- ===== src/Batches/Detection.antt =====
-- Two codes tell whether a batch is finished: the progress counts its statuses, null ones as queued,
-- and the claim asks the database, whose NOT IN passes over null ones (backend/app/services/batch_notifications.py).
use yarrow.Prelude.{
  ℕ, suc, ◌+◌, ◌≡◌, refl, Bool, not, ◌&&◌, ◌||◌, Option, none, some, List, [], ◌∷◌, ltb, ◌==◌,
  if◌then◌else◌, is_none, length, count_of, ◌≤◌, arith, Bool-cases, inl, inr,
}
use yarrow.Status.{Status, queued, processing, completed, failed, canceled, other, is_terminal}
use yarrow.Batches.Model.{Batch, Document, Settings, Notification, Counts}
use yarrow.Batches.Ops.{
  is_finished, is_sealed, is_past, live_of, has_status, not_final, count_status, count_statuses,
  newest, detected, finished,
}

abbrev open_ones : List Document → ℕ
open_ones = count_of (λ (d : Document). not_final d.status)

abbrev null_ones : List Document → ℕ
null_ones = count_of (λ (d : Document). is_none d.status)

abbrev waiting : Counts → ℕ
waiting counts = counts.queued + counts.processing

abbrev done : Counts → ℕ
done counts = counts.completed + counts.failed + counts.canceled

abbrev settled : Option Status → Bool
settled = has_status is_terminal

count_status-waiting :
    (s : Option Status) (counts : Counts)
    → (waiting (count_status s counts)
        ≡ (if settled s then waiting counts else suc (waiting counts)))
      × (done (count_status s counts) ≡ (if settled s then suc (done counts) else done counts))
count_status-waiting none counts = ground arith
count_status-waiting (some queued) counts = ground arith
count_status-waiting (some processing) counts = ground arith
count_status-waiting (some completed) counts = ground arith
count_status-waiting (some failed) counts = ground arith
count_status-waiting (some canceled) counts = ground arith
count_status-waiting (some (other _)) counts = ground arith

-- A status is final, null, or in between.
sorted_out :
    (s : Option Status)
    → (if settled s then 0 else 1) ≡ (if not_final s then 1 else 0) + (if is_none s then 1 else 0)
sorted_out none = refl
sorted_out (some s) = ground arith

counted :
    (documents : List Document)
    → (waiting (count_statuses documents) ≡ open_ones documents + null_ones documents)
      × (waiting (count_statuses documents) + done (count_statuses documents) ≡ length documents)
unfolding count_statuses
counted [] = (refl, refl)
counted (d ∷ documents) =
    let one = count_status-waiting d.status (count_statuses documents) in
    let rest = counted documents in
    let sort = sorted_out d.status in
    elim (Bool-cases (settled d.status)) [
      | inl final ↦ ground (arith, one, rest, final, sort)
      | inr still ↦ ground (arith, one, rest, still, sort)
    ]

is_finished-count :
    (documents : List Document)
    → is_finished (count_statuses documents)
      ≡ (ltb 0 (length documents) && open_ones documents == 0 && null_ones documents == 0)
unfolding is_finished
is_finished-count documents = ground (arith, counted documents)

sealed_either :
    (settings : Settings) (batch : Batch) (upload : Option ℕ) (now : ℕ)
    → is_sealed settings batch upload now
      ≡ (not (is_none batch.sealed_at) || is_past settings.seal_timeout now upload)
unfolding is_sealed
sealed_either settings batch upload now = elim (Bool-cases (is_none batch.sealed_at)) [
  | inl unsealed ↦ rw unsealed refl
  | inr sealed ↦ rw sealed refl
]

-- The progress finds a batch finished exactly when a claim at that time does and no live file of
-- the batch has a null status.
pub detected-finished :
    (settings : Settings) (now : ℕ) (documents : List Document) (batch : Batch)
    → detected settings now documents batch ≡ (
        finished settings now documents batch
        && count_of (λ (d : Document). is_none d.status) (live_of batch.id documents) == 0)
unfolding detected finished
detected-finished settings now documents batch =
    let live = live_of batch.id documents in
    rw (is_finished-count live, sealed_either settings batch (newest live) now) (ground arith)

-- Every file is in the total and under one of the three ends.
AddsUp : Notification → Type 0
AddsUp n = (1 ≤ n.total) × (n.completed + n.failed + n.canceled ≡ n.total)
