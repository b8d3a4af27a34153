-- ===== src/Uploads/Sweep.antt =====
-- The sweep of sessions past their retention window: `purge_expired_upload_sessions`
-- (backend/app/services/upload_sessions.py).
use yarrow.Prelude.{
  ℕ, ◌≡◌, refl, ◌∙◌, sym, Bool, true, false, not, ◌&&◌, Option, none, List, [], ◌∷◌, arith, subst,
  Bool-cases, leb, keep, map, elem, elem-keep, take, All, All-imp, inl, inr, ==_refl,
}
use yarrow.Prelude.Sorting.{sort_by}
use yarrow.Uploads.Model.{Key, Bytes}
use yarrow.Uploads.Chunks.{delete_objects, has_key}
use yarrow.Uploads.Deletion.{gone, same_key_refl}

-- A session and a chunk, as far as the sweep selects them.
pub record SessionRow : Type 0 where
  pub id : ℕ
  pub expires_at : ℕ

pub record ChunkRow : Type 0 where
  pub session_id : ℕ
  pub storage_key : Key

pub record Rows : Type 0 where
  pub sessions : List SessionRow
  pub chunks : List ChunkRow
  pub objects : Key → Option Bytes

abbrev pub sweep_batch : ℕ
sweep_batch = 50

-- The sessions of one sweep; a row that another request has locked is skipped.
unfoldable pub expired_ids : (ℕ → Bool) → ℕ → List SessionRow → List ℕ
expired_ids locked now sessions =
    map (λ (s : SessionRow). s.id)
      (take sweep_batch (
        sort_by (λ a b. leb a.expires_at b.expires_at)
          (keep (λ (s : SessionRow). leb s.expires_at now && not (locked s.id)) sessions)))

abbrev pub row_keys : List ChunkRow → List Key
row_keys = map (λ (r : ChunkRow). r.storage_key)

-- The sessions with an object that would not delete.
abbrev pub kept_ids : List Key → List ChunkRow → List ℕ
kept_ids failed rows =
    map (λ (r : ChunkRow). r.session_id)
      (keep (λ (r : ChunkRow). has_key r.storage_key failed) rows)

-- The removed sessions, and what is left: chunk rows go with their session.
unfoldable pub purge_expired_upload_sessions : (Key → Bool) → (ℕ → Bool) → ℕ → Rows → List ℕ × Rows
unfolding expired_ids
purge_expired_upload_sessions fails locked now db =
    let expired = expired_ids locked now db.sessions in
    let rows = keep (λ (r : ChunkRow). elem r.session_id expired) db.chunks in
    let (failed, left) = delete_objects fails (row_keys rows) db.objects in
    let removable = keep (λ id. not (elem id (kept_ids failed rows))) expired in
    (
      removable,
      record {
        sessions = keep (λ (s : SessionRow). not (elem s.id removable)) db.sessions;
        chunks = keep (λ (r : ChunkRow). not (elem r.session_id removable)) db.chunks;
        objects = left;
      },
    )

module _ (failed : List Key) (test : ChunkRow → Bool) where
  -- A chunk row of the sweep has its key among those that are deleted, and keeps its session when
  -- that fails.
  Swept : List ChunkRow → ChunkRow → Type 0
  Swept rows r =
      test r ≡ true
      → (has_key r.storage_key (row_keys rows) ≡ true)
        × (has_key r.storage_key failed ≡ true → elem r.session_id (kept_ids failed rows) ≡ true)

  Swept-more : (c r : ChunkRow) (rows : List ChunkRow) → Swept rows r → Swept (c ∷ rows) r
  unfolding Swept
  Swept-more c r rows h =
      λ in_sweep. (ground (arith, h in_sweep), (λ bad. ground (arith, h in_sweep)))

  keep-true :
      (c : ChunkRow) (rows : List ChunkRow)
      → test c ≡ true
      → keep test (c ∷ rows) ≡ c ∷ keep test rows
  keep-true c rows h = rw h refl

  keep-false :
      (c : ChunkRow) (rows : List ChunkRow) → test c ≡ false → keep test (c ∷ rows) ≡ keep test rows
  keep-false c rows h = rw h refl

  Swept-head : (c : ChunkRow) (rows : List ChunkRow) → Swept (c ∷ rows) c
  unfolding Swept
  Swept-head c rows _ =
      (ground (arith, same_key_refl c.storage_key), (λ bad. ground (arith, ==_refl c.session_id)))

  Swept-none : (c : ChunkRow) (rows : List ChunkRow) → test c ≡ false → Swept rows c
  unfolding Swept
  Swept-none c rows outside in_sweep = absurd (cc (outside, in_sweep))

  swept : (chunks : List ChunkRow) → All (Swept (keep test chunks)) chunks
  swept [] = tt
  swept (c ∷ chunks) =
      let rest = swept chunks in
      elim (Bool-cases (test c)) [
        | inl in_sweep ↦
            subst (λ rows. All (Swept rows) (c ∷ chunks)) (sym (keep-true c chunks in_sweep))
              (
                Swept-head c (keep test chunks),
                All-imp (λ r. Swept-more c r (keep test chunks)) chunks rest,
              )
        | inr outside ↦
            subst (λ rows. All (Swept rows) (c ∷ chunks)) (sym (keep-false c chunks outside))
              (Swept-none c (keep test chunks) outside, rest)
      ]

and_true : (a b : Bool) → (a && b) ≡ true → (a ≡ true) × (b ≡ true)
and_true true b h = (refl, h)
and_true false b h = absurd (cc h)

unlisted :
    (reported : Bool) (n : ℕ) (ids : List ℕ)
    → (reported ≡ true → elem n ids ≡ true)
    → not (elem n ids) ≡ true
    → reported ≡ false
unlisted true n ids h absent = absurd (ground (arith, h refl))
unlisted false n ids h absent = refl

-- A sweep loses track of no object: when it removes the session of a chunk row, the row's object is
-- gone.
pub purge_expired_upload_sessions_lem :
    (fails : Key → Bool) (locked : ℕ → Bool) (now : ℕ) (db : Rows)
    → let (removed, after) = purge_expired_upload_sessions fails locked now db in
      All (λ r. elem r.session_id removed ≡ true → after.objects r.storage_key ≡ none) db.chunks
unfolding purge_expired_upload_sessions Swept
purge_expired_upload_sessions_lem fails locked now db =
    let expired = expired_ids locked now db.sessions in
    let rows = keep (λ (r : ChunkRow). elem r.session_id expired) db.chunks in
    let failed = (delete_objects fails (row_keys rows) db.objects).0 in
    All-imp
      (λ r h removed.
        let (swept_now, unkept) = and_true _ _ (
          sym (elem-keep r.session_id (λ id. not (elem id (kept_ids failed rows))) expired)
          ∙ removed) in
        let (listed, reported) = h swept_now in
        gone fails r.storage_key (row_keys rows) db.objects listed (
          unlisted (has_key r.storage_key failed) r.session_id (kept_ids failed rows) reported
            unkept))
      db.chunks (swept failed (λ (r : ChunkRow). elem r.session_id expired) db.chunks)
