-- ===== src/Batches/Announcing.antt =====
-- Each batch is announced by one tab at a time, again when a tab was lost, and never after it was
-- acknowledged (backend/app/services/batch_notifications.py).
use yarrow.Prelude.{
  ℕ, ◌≡◌, refl, ap, ◌∙◌, Bool, true, false, not, some, List, [], ◌∷◌, map, ◌==◌, if◌then◌else◌,
  is_none, keep, any, elem, find_first, find_first-none, All-imp, arith, Bool-cases, Option-cases,
  inl, inr, ==_iff,
}
use yarrow.Batches.Model.{Batch, Document, Settings, Db, Notification}
use yarrow.Prelude.Sorting.{sort_by}
use yarrow.Batches.Ops.{
  claimable, offered, claim, notification, claim_order, claim_batch_notifications, acknowledgeable,
  acknowledge_batch_notifications, reopened, get_or_create_batch,
}
use yarrow.Batches.Rows.{
  Surely, elem-sort_by, if-Turns, append-Surely, Keeps, map-Turns, Distinct, map-Surely, if-Keeps,
  not-elem, elem-Surely,
}
use yarrow.Batches.Requests.{IsStable, sealing-Surely, reading-Surely}
use yarrow.Batches.Steps.{
  Step, sealing, reading, claiming, acknowledging, joining, working, Reach, here, next,
}

-- The batches that a claim offers.
abbrev pub offered_ids : Settings → ℕ → ℕ → Db → List ℕ
offered_ids settings now owner_id db =
    map (λ (b : Batch). b.id) (keep (offered settings now owner_id db.documents) db.batches)

-- The batches in the answer to a claim.
abbrev pub answered_ids : Settings → ℕ → ℕ → Db → List ℕ
answered_ids settings now owner_id db =
    map (λ (n : Notification). n.batch_id)
      (claim_batch_notifications settings now owner_id db).0.notifications

batch_ids :
    (documents : List Document) (batches : List Batch)
    → map (λ (n : Notification). n.batch_id) (map (notification documents) batches)
      ≡ map (λ (b : Batch). b.id) batches
unfolding notification
batch_ids documents [] = refl
batch_ids documents (b ∷ batches) = ap (λ ids. b.id ∷ ids) (batch_ids documents batches)

claim_ids :
    (now : ℕ) (batches : List Batch)
    → map (λ (b : Batch). b.id) (map (claim now) batches) ≡ map (λ (b : Batch). b.id) batches
claim_ids now [] = refl
claim_ids now (b ∷ batches) = ap (λ ids. b.id ∷ ids) (claim_ids now batches)

pub elem-answered_ids :
    (settings : Settings) (now owner_id id : ℕ) (db : Db)
    → elem id (answered_ids settings now owner_id db)
      ≡ elem id (offered_ids settings now owner_id db)
unfolding claim_batch_notifications
elem-answered_ids settings now owner_id id db =
    let kept = keep (offered settings now owner_id db.documents) db.batches in
    ap (elem id) (batch_ids db.documents (sort_by (claim_order now) (map (claim now) kept)))
    ∙ elem-sort_by (claim_order now) (λ (b : Batch). b.id) id (map (claim now) kept)
    ∙ ap (elem id) (claim_ids now kept)

-- An announced batch.
abbrev announced : Batch → Bool
announced b = not (is_none b.notified_at)

announced-IsStable : IsStable announced
unfolding IsStable
announced-IsStable b h = ((λ now. h), (λ completed_at. h))

announced-Keeps :
    (id : ℕ) (p : Batch → Bool) (f : Batch → Batch)
    → ((b : Batch) → ((f b).id ≡ b.id) × (announced b ≡ true → announced (f b) ≡ true))
    → Keeps announced id (λ b. if p b then f b else b)
announced-Keeps id p f keeps =
    if-Keeps announced id p f (λ b _. ((keeps b).0, λ _ h. (keeps b).1 h))

-- A row that is there is not one that is missing.
other_row :
    (n id : ℕ) (batches : List Batch)
    → any (λ (b : Batch). b.id == n) batches ≡ false
    → any (λ (b : Batch). b.id == id) batches ≡ true
    → (n == id) ≡ false
other_row n id batches absent there = elim (Bool-cases (n == id)) [
  | inr other ↦ other
  | inl same ↦
      let equal = ap (λ m. any (λ (b : Batch). b.id == m) batches) ((==_iff n id).0 same) in
      absurd (cc (equal, absent, there))
]

joining-Surely :
    (id now owner_id other_id : ℕ) (db : Db)
    → Surely announced id db.batches
    → Surely announced id (get_or_create_batch now owner_id other_id db).1.batches
unfolding get_or_create_batch
joining-Surely id now owner_id other_id db h =
    elim (Option-cases (find_first (λ (b : Batch). b.id == other_id) db.batches)) [
      | inl absent ↦
          rw (absent, get_or_create_batch)
            (append-Surely announced id _ db.batches
              (other_row other_id id db.batches (find_first-none _ db.batches absent) h.0) h)
      | inr (b, found) ↦
          rw (found, get_or_create_batch)
            (elim (Bool-cases (b.owner_id == owner_id)) [
              | inl owner ↦ rw owner (
                  map-Surely announced id _ db.batches
                    (announced-Keeps id (λ b. b.id == other_id) reopened (λ b. (refl, λ h. h))) h)
              | inr foreign ↦ rw foreign h
            ])
    ]

Step-announced :
    (settings : Settings) (id : ℕ) {db after : Db}
    → Step settings db after
    → Surely announced id db.batches
    → Surely announced id after.batches
unfolding claim_batch_notifications acknowledge_batch_notifications
Step-announced settings id {db} (sealing now other_id owner_id) h =
    sealing-Surely settings announced announced-IsStable id now other_id owner_id db h
Step-announced settings id {db} (reading now other_id owner_id) h =
    reading-Surely settings announced announced-IsStable id now other_id owner_id db h
Step-announced settings id {db} (claiming now owner_id) h =
    map-Surely announced id _ db.batches
      (announced-Keeps id (offered settings now owner_id db.documents) (claim now)
        (λ b. (refl, λ h. h)))
      h
Step-announced settings id {db} (acknowledging now owner_id ids) h =
    map-Surely announced id _ db.batches
      (announced-Keeps id (acknowledgeable owner_id ids) (λ b. record b { notified_at = some now })
        (λ b. (refl, λ _. refl)))
      h
Step-announced settings id {db} (joining now owner_id other_id) h =
    joining-Surely id now owner_id other_id db h
Step-announced settings id {db} (working documents) h = h

Reach-announced :
    (settings : Settings) (id : ℕ) {db last : Db}
    → Reach settings db last
    → Surely announced id db.batches
    → Surely announced id last.batches
Reach-announced settings id here h = h
Reach-announced settings id (next before step) h =
    Step-announced settings id step (Reach-announced settings id before h)

-- With distinct ids, a batch that was acknowledged is never offered again: not by any claim of any
-- user at any time, after any sequence of requests, files that join it included.
pub acknowledged_for_good :
    (settings : Settings) (id now owner_id : ℕ) (ids : List ℕ) (db last : Db)
    (later later_owner : ℕ)
    → Distinct db.batches
    → elem id (acknowledge_batch_notifications now owner_id ids db).0 ≡ true
    → Reach settings (acknowledge_batch_notifications now owner_id ids db).1 last
    → elem id (answered_ids settings later later_owner last) ≡ false
unfolding acknowledge_batch_notifications offered claimable
acknowledged_for_good settings id now owner_id ids db last later later_owner distinct told run =
    let chosen = elem-Surely (acknowledgeable owner_id ids) id db.batches distinct told in
    let told_now =
      map-Turns _ announced id _ db.batches
        (if-Turns (acknowledgeable owner_id ids) announced id
          (λ b. record b { notified_at = some now }) (λ b _ _. refl) (λ b. refl))
        chosen in
    let (there, all) = Reach-announced settings id run told_now in
    elem-answered_ids settings later later_owner id last
    ∙ not-elem _ id last.batches (All-imp (λ b h same. ground (arith, h same)) last.batches all)
