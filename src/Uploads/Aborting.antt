-- ===== src/Uploads/Aborting.antt =====
-- Abandoning an upload loses track of no object (backend/app/api/v1/endpoints/uploads.py).
use yarrow.Prelude.{
  ℕ, ◌≡◌, refl, ◌⊎◌, inl, inr, Bool, true, false, none, some, List, [], ◌∷◌, arith, length,
  Bool-cases, ◌==◌,
}
use yarrow.Status.{canceled}
use yarrow.Uploads.Model.{Upload, Key, Db, ok, raise, expired_410}
use yarrow.Uploads.Chunks.{load, require_open, open_by_status, delete_objects, has_key}
use yarrow.Uploads.Sessions.{abort_upload, abort_loaded, keys_of}
use yarrow.Uploads.Deletion.{objects_left, gone}

none_kept : (k : Key) (keys : List Key) → (length keys == 0) ≡ true → has_key k keys ≡ false
none_kept k [] h = refl
none_kept k (key ∷ keys) h = absurd (ground arith)

module _ (fails : Key → Bool) (now owner_id : ℕ) (upload : Upload) (db : Db) where
  -- Abandoning a session leaves every object that is not a chunk of it alone, and all documents, jobs
  -- and used space. Either the session and its chunk rows are gone with all their objects, or every
  -- chunk row is still there and the kept session is refused as expired, at any time, by
  -- `require_open`, the check of the chunk requests and the finalize.
  pub abort_upload_lem :
      load owner_id db ≡ ok upload
      → let after = (abort_upload fails now owner_id db).1 in
        (after.documents ≡ db.documents)
        × (after.jobs ≡ db.jobs)
        × (after.storage_used_bytes ≡ db.storage_used_bytes)
        × ((k : Key) → has_key k (keys_of db.chunks) ≡ false → after.objects k ≡ db.objects k)
        × (((after.upload ≡ none)
              × (after.chunks ≡ [])
              × ((k : Key) → has_key k (keys_of db.chunks) ≡ true → after.objects k ≡ none))
            ⊎ ((after.chunks ≡ db.chunks)
                × ((row : Upload) × (after.upload ≡ some row)
                    × ((later : ℕ) → require_open later row ≡ raise expired_410))))
  unfolding abort_upload abort_loaded require_open open_by_status
  abort_upload_lem loaded =
      rw loaded
        (elim (Bool-cases (length (delete_objects fails (keys_of db.chunks) db.objects).0 == 0)) [
          | inl all_gone ↦ rw all_gone (
            refl,
            refl,
            refl,
            (λ k other. ground (arith, objects_left fails k (keys_of db.chunks) db.objects)),
            inl (
              refl,
              refl,
              (λ k listed.
                  gone fails k (keys_of db.chunks) db.objects listed (none_kept k _ all_gone)),
            ),
          )
          | inr some_kept ↦ rw some_kept (
            refl,
            refl,
            refl,
            (λ k other. ground (arith, objects_left fails k (keys_of db.chunks) db.objects)),
            inr (
              refl,
              (record upload { status = canceled; expires_at = now }, refl, (λ later. refl)),
            ),
          )
        ])
