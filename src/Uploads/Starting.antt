-- ===== src/Uploads/Starting.antt =====
-- What a newly started upload satisfies (backend/app/api/v1/endpoints/uploads.py,
-- backend/app/services/storage_usage.py).
use native.Mathlib.Nat.{le-div_iff_mul-le, mul_comm, lt-mul-div-succ}
use yarrow.Prelude.{
  ℕ, zero, suc, ◌+◌, ◌-◌, ◌*◌, ◌≤◌, ◌<◌, ◌≡◌, refl, sym, Bool, true, false, ◌&&◌, some, List, ◌∷◌,
  arith, leb, ==_refl,
}
use yarrow.Uploads.Model.{Settings, Upload, Db, Error, Result, ok, new_expiry}
use yarrow.Uploads.Chunks.{guard, supported}
use yarrow.Uploads.Finalize.{check_batch}
use yarrow.Uploads.Sessions.{
  Create, create_upload_session, new_upload, reserved_bytes, remaining_bytes, ceil_div,
  min_chunk_bytes, max_chunk_bytes,
}
use yarrow.Uploads.Assembly.{IsPlanned}
use yarrow.Uploads.Put.{first_step}

less_than_all :
    (size count total : ℕ)
    → 0 < size
    → 0 < count
    → count * size ≤ total + (size - 1)
    → size * (count - 1) < total
less_than_all size zero total s c h = omega (arith, c)
less_than_all size (suc count) total s c h =
    let product : suc count * size ≡ size * count + size = omega (arith, mul_comm size count) in
    let one_less : suc count - 1 ≡ count = omega arith in rw one_less (omega (arith, product, h))

ceil_div-bounds :
    (total size : ℕ)
    → 0 < total
    → 0 < size
    → (0 < ceil_div total size)
      × (size * (ceil_div total size - 1) < total)
      × (total ≤ size * ceil_div total size)
ceil_div-bounds total size some_bytes some_size =
    let positive =
      (le-div_iff_mul-le {k = size} {x = 1} {y = total + (size - 1)} some_size).1 (omega arith) in
    let below =
      (le-div_iff_mul-le {k = size} {x = ceil_div total size} {y = total + (size - 1)} some_size).0
        (omega arith) in
    let above = lt-mul-div-succ (total + (size - 1)) {b = size} some_size in
    (
      positive,
      less_than_all size (ceil_div total size) total some_size positive below,
      omega (arith, above),
    )

passed : (test : Bool) (refusal : Error) (v : Unit {0}) → guard test refusal ≡ ok v → test ≡ true
passed true refusal v h = refl
passed false refusal v h = cc

unok : {u v : Upload} → ◌≡◌ {A = Result Upload} (ok u) (ok v) → u ≡ v
unok h = cc

-- What the last checks of a started session were.
started_lem :
    (settings : Settings) (now id owner_id : ℕ) (payload : Create) (uploads : List Upload) (db : Db)
    (upload : Upload)
    → create_upload_session settings now id owner_id payload uploads db ≡ ok upload
    → (min_chunk_bytes ≤ payload.chunk_size_bytes)
      × (payload.total_size_bytes
          ≤ remaining_bytes settings db.storage_used_bytes (reserved_bytes now owner_id uploads))
      × (upload ≡ new_upload settings now id owner_id payload)
unfolding create_upload_session
started_lem settings now id owner_id payload uploads db upload h =
    let (_, _, h1) = first_step _ (guard (supported (some payload.extension)) _) h in
    let (_, _, h2) =
      first_step _ (guard (leb payload.total_size_bytes settings.max_upload_bytes) _) h1 in
    let (_, sized, h3) =
      first_step _
        (guard
          (leb min_chunk_bytes payload.chunk_size_bytes
            && leb payload.chunk_size_bytes max_chunk_bytes)
          _)
        h2 in
    let (_, _, h4) = first_step _ (check_batch owner_id payload.batch_id db) h3 in
    let (_, fits, h5) = first_step _ (guard (leb payload.total_size_bytes _) _) h4 in
    (ground (arith, passed _ _ _ sized), ground (arith, passed _ _ _ fits), sym (unok h5))

-- A session that was started for a file of some bytes is planned as assembly needs it: it has as
-- many parts as its size takes. With it, what the owner's documents use and what the unfinished
-- uploads declared still fits the quota together.
pub create_upload_session-IsPlanned :
    (settings : Settings) (now id owner_id : ℕ) (payload : Create) (uploads : List Upload) (db : Db)
    (upload : Upload)
    → 0 < payload.total_size_bytes
    → 0 < settings.session_ttl
    → create_upload_session settings now id owner_id payload uploads db ≡ ok upload
    → IsPlanned upload
      × (reserved_bytes now owner_id (upload ∷ uploads)
          ≡ payload.total_size_bytes + reserved_bytes now owner_id uploads)
      × (db.storage_used_bytes + reserved_bytes now owner_id (upload ∷ uploads)
          ≤ settings.storage_quota_bytes)
unfolding new_upload new_expiry reserved_bytes remaining_bytes
create_upload_session-IsPlanned settings now id owner_id payload uploads db upload some_bytes lasts
      h =
    let (sized, fits, same) = started_lem settings now id owner_id payload uploads db upload h in
    let (positive, down, up) =
      ceil_div-bounds payload.total_size_bytes payload.chunk_size_bytes some_bytes (omega arith) in
    rw same (
      record { some_chunk = positive; all_needed = down; enough = up },
      ground (arith, ==_refl owner_id),
      ground (arith, ==_refl owner_id),
    )
