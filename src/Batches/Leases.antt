-- ===== src/Batches/Leases.antt =====
-- The lease of a claim: until it ends no other tab is offered the batch, and after it every tab of
-- the owner is (backend/app/services/batch_notifications.py).
use yarrow.Prelude.{
  ℕ, ◌+◌, ◌<◌, ◌≤◌, ◌≡◌, refl, ap, sym, ◌∙◌, Bool, true, false, not, ◌&&◌, ◌||◌, Option, none, some,
  List, ◌==◌, is_none, length, ltb, count_of, elem, All-imp, arith, ==_iff,
}
use yarrow.Batches.Model.{Batch, Document, Settings, Db}
use yarrow.Batches.Ops.{
  live_of, not_final, is_past, newest, finished, claimable, offered, claim,
  claim_batch_notifications, acknowledgeable, acknowledge_batch_notifications,
}
use yarrow.Batches.Rows.{
  Surely, if-Turns, Keeps, Turns, Distinct, map-Surely, map-Turns, if-Keeps, not-elem, Surely-elem,
  elem-Surely,
}
use yarrow.Batches.Steps.{Holding, still, sealed, read, claimed, acknowledged, joined, worked}
use yarrow.Batches.Requests.{
  IsStable, sealing-Surely, reading-Surely, sealing_documents, reading_documents,
  joining_other-Surely, joining_documents,
}
use yarrow.Batches.Announcing.{offered_ids, answered_ids, elem-answered_ids}

live_here :
    {live : List Document} (id : ℕ) (documents : List Document) (b : Batch)
    → live_of id documents ≡ live
    → (b.id == id) ≡ true
    → live_of b.id documents ≡ live
live_here id documents b same is_id =
    ap (λ n. live_of n documents) ((==_iff b.id id).0 is_id) ∙ same

is_past-later :
    (seconds t now : ℕ) (o : Option ℕ)
    → t ≤ now
    → is_past seconds t o ≡ true
    → is_past seconds now o ≡ true
is_past-later seconds t now none h past = past
is_past-later seconds t now (some x) h past = ground (arith, past)

module _ (settings : Settings) (id claimed_at owner_id : ℕ) (live : List Document) where
  -- A batch that was claimed at this time, not acknowledged, and is sealed or old enough.
  abbrev held : Batch → Bool
  held b =
      b.owner_id == owner_id
      && is_none b.notified_at
      && elim b.claimed_at [ none ↦ false | some t ↦ t == claimed_at ]
      && (not (is_none b.sealed_at) || is_past settings.seal_timeout claimed_at (newest live))
      && ltb 0 (length live)
      && count_of (λ (d : Document). not_final d.status) live == 0

  held-IsStable : IsStable held
  unfolding IsStable
  held-IsStable b h = ((λ now. ground (arith, h)), (λ completed_at. h))

  claim-held :
      (documents : List Document) (b : Batch)
      → live_of id documents ≡ live
      → (b.id == id) ≡ true
      → offered settings claimed_at owner_id documents b ≡ true
      → held (claim claimed_at b) ≡ true
  unfolding offered claimable finished
  claim-held documents b same is_id h =
      let here : live_of b.id documents ≡ live = live_here id documents b same is_id in
      let now_here = rw here at h in ground (arith, now_here)

  leased :
      (documents : List Document) (now other_id : ℕ) (b : Batch)
      → now < claimed_at + settings.lease
      → held b ≡ true
      → offered settings now other_id documents b ≡ false
  unfolding offered claimable
  leased documents now other_id b early h = ground (arith, h, early)

  ended :
      (documents : List Document) (now : ℕ) (b : Batch)
      → claimed_at + settings.lease ≤ now
      → live_of id documents ≡ live
      → (b.id == id) ≡ true
      → held b ≡ true
      → offered settings now owner_id documents b ≡ true
  unfolding offered claimable finished
  ended documents now b late same is_id h =
      let here = live_here id documents b same is_id in
      let past = is_past-later settings.seal_timeout claimed_at now (newest live) (omega arith) in
      rw here (ground (arith, h, past))

  unlisted :
      (b : Batch) (owner : ℕ) (ids : List ℕ)
      → (b.id == id) ≡ true
      → elem id ids ≡ false
      → acknowledgeable owner ids b ≡ false
  unlisted b owner ids is_id other =
      let absent : elem b.id ids ≡ false =
        ap (λ n. elem n ids) ((==_iff b.id id).0 is_id) ∙ other in
      rw absent refl

  -- What holds of the rows and of the batch's files while a tab holds it.
  IsHeld : Db → Type 0
  IsHeld db = Surely held id db.batches × (live_of id db.documents ≡ live)

  Holding-IsHeld : {db last : Db} → Holding settings id claimed_at db last → IsHeld db → IsHeld last
  unfolding IsHeld claim_batch_notifications acknowledge_batch_notifications Keeps Turns
  Holding-IsHeld still h = h
  Holding-IsHeld (sealed {mid} now other_id owner before) h =
      let (rows, same) = Holding-IsHeld before h in
      (
        sealing-Surely settings held held-IsStable id now other_id owner mid rows,
        ap (live_of id) (sealing_documents now other_id owner mid) ∙ same,
      )
  Holding-IsHeld (read {mid} now other_id owner before) h =
      let (rows, same) = Holding-IsHeld before h in
      (
        reading-Surely settings held held-IsStable id now other_id owner mid rows,
        ap (live_of id) (reading_documents settings now other_id owner mid) ∙ same,
      )
  Holding-IsHeld (claimed {mid} now owner before early) h =
      let (rows, same) = Holding-IsHeld before h in
      (
        map-Surely held id _ mid.batches
            (if-Keeps held id (offered settings now owner mid.documents) (claim now) (λ b taken. (
              refl,
              λ _ is_held. absurd (cc (leased mid.documents now owner b early is_held, taken)),
            )))
            rows,
        same,
      )
  Holding-IsHeld (acknowledged {mid} now owner ids before other) h =
      let (rows, same) = Holding-IsHeld before h in
      (
        map-Surely held id _ mid.batches
            (if-Keeps held id (acknowledgeable owner ids) (λ b. record b { notified_at = some now })
              (λ b taken. (refl, λ is_id _. absurd (cc (unlisted b owner ids is_id other, taken)))))
            rows,
        same,
      )
  Holding-IsHeld (joined {mid} now owner other_id before apart) h =
      let (rows, same) = Holding-IsHeld before h in
      (
        joining_other-Surely held id now owner other_id mid apart rows,
        ap (live_of id) (joining_documents now owner other_id mid) ∙ same,
      )
  Holding-IsHeld (worked {mid} documents before kept) h =
      let (rows, same) = Holding-IsHeld before h in (rows, kept ∙ same)

  claimed-IsHeld :
      (db : Db)
      → Distinct db.batches
      → live_of id db.documents ≡ live
      → elem id (offered_ids settings claimed_at owner_id db) ≡ true
      → IsHeld (claim_batch_notifications settings claimed_at owner_id db).1
  unfolding IsHeld claim_batch_notifications
  claimed-IsHeld db distinct same taken =
      let test = offered settings claimed_at owner_id db.documents in
      (
        map-Turns test held id _ db.batches
            (if-Turns test held id (claim claimed_at)
              (λ b is_id h. claim-held db.documents b same is_id h) (λ b. refl))
            (elem-Surely test id db.batches distinct taken),
        same,
      )

module _ (settings : Settings) (id claimed_at owner_id : ℕ) (db last : Db) where
  -- With distinct ids, what a claim offered, no other claim offers before its lease ends, whoever
  -- asks, while no file joins this batch, none of its files changes and nobody acknowledges it, whatever
  -- else is asked of batches, files that join others included.
  pub offered_once :
      (now other_id : ℕ)
      → Distinct db.batches
      → elem id (answered_ids settings claimed_at owner_id db) ≡ true
      → Holding settings id claimed_at
          (claim_batch_notifications settings claimed_at owner_id db).1
          last
      → now < claimed_at + settings.lease
      → elem id (answered_ids settings now other_id last) ≡ false
  unfolding IsHeld
  offered_once now other_id distinct taken run early =
      let live = live_of id db.documents in
      let (rows, same) = Holding-IsHeld settings id claimed_at owner_id live run (
        claimed-IsHeld settings id claimed_at owner_id live db distinct refl
          (sym (elem-answered_ids settings claimed_at owner_id id db) ∙ taken)) in
      elem-answered_ids settings now other_id id last
      ∙ not-elem _ id last.batches (
          All-imp
            (λ b h is_id.
              leased settings id claimed_at owner_id live last.documents now other_id b early
                (h is_id))
            last.batches rows.1)

  -- With distinct ids, what a claim offered and nobody acknowledged is offered again by a claim of
  -- its owner after its lease ended, when until then no file joined this batch, none of its files
  -- changed, and other claims came before the lease ended, whatever else was asked of batches.
  pub offered_again :
      (now : ℕ)
      → Distinct db.batches
      → elem id (answered_ids settings claimed_at owner_id db) ≡ true
      → Holding settings id claimed_at
          (claim_batch_notifications settings claimed_at owner_id db).1
          last
      → claimed_at + settings.lease ≤ now
      → elem id (answered_ids settings now owner_id last) ≡ true
  unfolding IsHeld
  offered_again now distinct taken run late =
      let live = live_of id db.documents in
      let (rows, same) = Holding-IsHeld settings id claimed_at owner_id live run (
        claimed-IsHeld settings id claimed_at owner_id live db distinct refl
          (sym (elem-answered_ids settings claimed_at owner_id id db) ∙ taken)) in
      elem-answered_ids settings now owner_id id last
      ∙ Surely-elem _ id last.batches (
        rows.0,
        All-imp
            (λ b h is_id.
              ended settings id claimed_at owner_id live last.documents now b late same is_id
                (h is_id))
            last.batches rows.1,
      )
