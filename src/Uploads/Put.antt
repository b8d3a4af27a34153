-- ===== src/Uploads/Put.antt =====
-- Storing a chunk keeps the confirmed ones, and may be retried
-- (backend/app/api/v1/endpoints/uploads.py).
use yarrow.Prelude.{
  ℕ, ◌∙◌, ◌<◌, ◌+◌, leb, ◌≡◌, refl, ◌⊎◌, inl, inr, Bool, true, false, not, ◌&&◌, Option, none, some,
  List, [], ◌∷◌, ◌++◌, map, arith, Bool-cases, Option-cases, ◌==◌, All, length, take,
}
use yarrow.Prelude.Int.{ℤ, pos, negsuc}
use yarrow.Uploads.Deletion.{same_key_refl}
use yarrow.Uploads.Model.{
  incomplete_400, damaged_400, quota_413, Settings, Bytes, Externals, Upload, Key, chunk_key, Chunk,
  Db, put_object, ok, raise, Error, new_expiry, Result,
}
use yarrow.Uploads.Chunks.{
  Part, Faults, find_chunk, store_part, store_new, store_known, confirm, fail, discard_chunks,
  load_open, load, require_open, supported, sniff_bytes, delete_objects, check_part, check_body,
  part_index, expected_chunk_size, read_body, guard, ◌>>=◌, ◌>>◌, header_agrees, put_chunk,
}
use yarrow.Uploads.Confirmed.{
  IsStored, IsDistinct, IsSound, Fits, SamePlan, All-SamePlan, kept-IsStored, IsDistinct-keep,
  IsDistinct-append_one, put_keeps, expected_chunk_size-SamePlan,
}

All-append {ℓ κ} :
    {A : Type ℓ} (P : A → Type κ) (xs : List A) (y : A) → All P xs → P y → All P (xs ++ y ∷ [])
All-append P [] y h p = (p, tt)
All-append P (x ∷ xs) y h p = (h.0, All-append P xs y h.1 p)

module _ (e : Externals) (upload : Upload) where
  -- The rows that a discard leaves are sound under any later state of the session's row.
  discard-IsSound :
      (fails : Key → Bool) (later : Upload) (db : Db)
      → SamePlan upload later
      → db.upload ≡ some later
      → All (IsStored e upload db.objects) db.chunks
      → IsDistinct db.chunks
      → IsSound e later (discard_chunks fails db)
  unfolding discard_chunks
  discard-IsSound fails later db same present stored distinct =
      let keys = map (λ (c : Chunk). c.storage_key) db.chunks in
      record {
        present = present;
        stored =
            All-SamePlan e upload later same (delete_objects fails keys db.objects).1 _
              (kept-IsStored e upload fails keys db.objects db.chunks stored);
        distinct = IsDistinct-keep _ db.chunks distinct;
      }

  module _ (settings : Settings) (now : ℕ) (part : Part) where
    confirm-IsSound :
        (already : Bool) (db : Db)
        → All (IsStored e upload db.objects) db.chunks
        → IsDistinct db.chunks
        → IsSound e
            (record upload { expires_at = new_expiry settings now })
            (confirm settings now upload part already db).1
    unfolding confirm
    confirm-IsSound already db stored distinct = record {
      present = refl;
      stored = All-SamePlan e upload _ (refl, refl, refl, refl) db.objects db.chunks stored;
      distinct = distinct;
    }

    new_chunk-IsStored :
        (db : Db)
        → Fits e upload part
        → IsStored e upload
            (put_object (chunk_key upload.id part.index part.digest) part.body db.objects)
            (record {
              chunk_index = part.index;
              size_bytes = length part.body;
              sha256 = part.digest;
              storage_key = chunk_key upload.id part.index part.digest;
            })
    new_chunk-IsStored db fits = record {
      in_range = fits.in_range;
      keyed = refl;
      bytes = part.body;
      held = rw same_key_refl;
      sized = refl;
      expected = fits.sized;
      hashed = fits.hashed;
    }

pub Result-cases :
    {A : Type 0} (r : Result A) → ((refusal : Error) × (r ≡ raise refusal)) ⊎ ((a : A) × (r ≡ ok a))
Result-cases (ok a) = inr (a, refl)
Result-cases (raise refusal) = inl (refusal, refl)

-- A request that passes the gate works on the session's own row.
pub load_open_row :
    (now owner_id : ℕ) (db : Db) (u : Upload)
    → load_open now owner_id db ≡ ok u
    → db.upload ≡ some u
unfolding load require_open
load_open_row now owner_id db u h = ground arith

-- The session's row after a request: the same plan, so that soundness speaks of the same parts.
pub record StaysSound (e : Externals) (upload : Upload) (db : Db) : Type 0 where
  pub later : Upload
  pub same : SamePlan upload later
  pub sound : IsSound e later db

module _ (e : Externals) (settings : Settings) (faults : Faults) (now : ℕ) (upload : Upload)
    (part : Part) (db : Db) (h : IsSound e upload db) where
  store_new-StaysSound :
      Fits e upload part
      → find_chunk part.index db.chunks ≡ none
      → StaysSound e upload (store_new settings e faults now upload part db).1
  unfolding store_new fail
  store_new-StaysSound fits absent =
      elim (Bool-cases
        (part.index == 0 && not (supported (e.guess (take sniff_bytes part.body))))) [
          | inl bad ↦ rw bad (record {
            later = _;
            same = (refl, refl, refl, refl);
            sound =
                discard-IsSound e upload faults.delete_fails _ _ (refl, refl, refl, refl) refl
                  h.stored h.distinct;
          })
          | inr fine ↦ rw fine (elim (Bool-cases faults.upload_fails) [
            | inl down ↦
                rw down (record { later = upload; same = (refl, refl, refl, refl); sound = h })
            | inr up ↦ rw up (record {
              later = _;
              same = (refl, refl, refl, refl);
              sound =
                  confirm-IsSound e upload settings now part false _
                    (All-append _ db.chunks _
                      (put_keeps e upload part.index part.digest part.body db.objects db.chunks
                        h.stored absent)
                      (new_chunk-IsStored e upload settings now part db fits))
                    (IsDistinct-append_one _ db.chunks h.distinct absent);
            })
          ])
        ]

  store_known-StaysSound :
      (existing : Chunk) → StaysSound e upload (store_known settings now upload part existing db).1
  unfolding store_known
  store_known-StaysSound existing = elim (Bool-cases (existing.sha256 == part.digest)) [
    | inl equal ↦ rw equal (record {
      later = _;
      same = (refl, refl, refl, refl);
      sound = confirm-IsSound e upload settings now part true db h.stored h.distinct;
    })
    | inr differs ↦
        rw differs (record { later = upload; same = (refl, refl, refl, refl); sound = h })
  ]

  store_part-StaysSound :
      (owner_id : ℕ)
      → Fits e upload part
      → StaysSound e upload (store_part settings e faults now owner_id part db).1
  unfolding store_part
  store_part-StaysSound owner_id fits = elim (Result-cases (load_open now owner_id db)) [
    | inl (refusal, stopped) ↦
        rw stopped (record { later = upload; same = (refl, refl, refl, refl); sound = h })
    | inr (u, opened) ↦
        let same_row : u ≡ upload = cc (load_open_row now owner_id db u opened, h.present) in
        rw (opened, same_row)
          (elim (Option-cases (find_chunk part.index db.chunks)) [
            | inl absent ↦ rw absent (store_new-StaysSound fits absent)
            | inr (existing, there) ↦ rw there (store_known-StaysSound existing)
          ])
  ]

-- Inversion of a successful bind.
-- A chain of steps that ends well went through its first step.
pub first_step :
    {A B : Type 0} {end : B} (rest : A → Result B) (step : Result A)
    → (step >>= rest) ≡ ok end
    → (value : A) × (step ≡ ok value) × (rest value ≡ ok end)
first_step rest (raise refusal) h = cc
first_step rest (ok value) h = (value, refl, h)

load_row : (owner_id : ℕ) (db : Db) (u : Upload) → load owner_id db ≡ ok u → db.upload ≡ some u
unfolding load
load_row owner_id db u h = ground arith

part_index-lt :
    (requested : ℤ) (u : Upload) (index : ℕ)
    → part_index requested u ≡ ok index
    → index < u.chunk_count
unfolding part_index
part_index-lt (pos i) u index h = ground arith
part_index-lt (negsuc i) u index h = cc

guard-then :
    {B : Type 0} (test : Bool) (refusal : Error) (rest : Result B) {b : B}
    → (guard test refusal >> rest) ≡ ok b
    → (test ≡ true) × (rest ≡ ok b)
guard-then true refusal rest h = (refl, h)
guard-then false refusal rest h = cc

Fits-SamePlan :
    (e : Externals) (u v : Upload) (part : Part) → SamePlan u v → Fits e u part → Fits e v part
Fits-SamePlan e u v part same fits = record {
  in_range = rw (← same.1) fits.in_range;
  sized = fits.sized ∙ expected_chunk_size-SamePlan u v part.index same;
  hashed = fits.hashed;
}

check_body-Fits :
    (settings : Settings) (e : Externals) (requested : ℤ) (parts : List Bytes) (header : Option ℕ)
    (u : Upload) (used : ℕ) (part : Part)
    → check_body settings e requested parts header u used ≡ ok part
    → Fits e u part
unfolding check_body
check_body-Fits settings e requested parts header u used part h =
    let (index, ranged, h3) = first_step _ (part_index requested u) h in
    let (body, received, h4) = first_step _ (read_body (expected_chunk_size u index) [] parts) h3 in
    let (complete, h5) =
      guard-then (length body == expected_chunk_size u index) incomplete_400 _ h4 in
    let (intact, h6) = guard-then (header_agrees header (e.sha256 body)) damaged_400 _ h5 in
    let (room, h7) =
      guard-then (leb (u.total_size_bytes + used) settings.storage_quota_bytes) quota_413 _ h6 in
    record {
      in_range = ground (arith, part_index-lt requested u index ranged, h7);
      sized = ground (arith, complete, h7);
      hashed = ground (arith, h7);
    }

-- What a request that passed the checks before the lock had read.
pub check_part-inv :
    (settings : Settings) (e : Externals) (now owner_id : ℕ) (requested : ℤ) (parts : List Bytes)
    (header : Option ℕ) (before : Db) (part : Part)
    → check_part settings e now owner_id requested parts header before ≡ ok part
    → (u : Upload) × (load_open now owner_id before ≡ ok u)
      × (check_body settings e requested parts header u before.storage_used_bytes ≡ ok part)
unfolding check_part
check_part-inv settings e now owner_id requested parts header before part h =
    first_step _ (load_open now owner_id before) h

-- A session with confirmed chunks stays sound, whatever chunk request comes next and however it
-- ends: each confirmed chunk's object holds bytes of the length expected for its index and with its
-- recorded digest, and no index has two rows. What the request read before the lock may be stale,
-- but for the session's sizes.
pub put_chunk-StaysSound :
    (e : Externals) (settings : Settings) (faults : Faults) (now owner_id : ℕ) (requested : ℤ)
    (parts : List Bytes) (header : Option ℕ) (before db : Db) (upload : Upload)
    → ((u : Upload) → before.upload ≡ some u → SamePlan u upload)
    → IsSound e upload db
    → StaysSound e upload
        (put_chunk settings e faults now owner_id requested parts header before db).1
unfolding put_chunk
put_chunk-StaysSound e settings faults now owner_id requested parts header before db upload planned
      h =
    elim (Result-cases (check_part settings e now owner_id requested parts header before)) [
      | inl (refusal, stopped) ↦
          rw stopped (record { later = upload; same = (refl, refl, refl, refl); sound = h })
      | inr (part, passed) ↦
          let (u, opened, checked) =
            check_part-inv settings e now owner_id requested parts header before part passed in
          rw passed (
            store_part-StaysSound e settings faults now upload part db h owner_id (
              Fits-SamePlan e u upload part (planned u (load_open_row now owner_id before u opened))
                (check_body-Fits settings e requested parts header u before.storage_used_bytes part
                  checked)))
    ]
