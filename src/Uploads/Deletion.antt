-- ===== src/Uploads/Deletion.antt =====
-- What `delete_objects` and `discard_chunks` leave behind
-- (backend/app/services/upload_sessions.py).
use yarrow.Prelude.{
  ◌≡◌, refl, ap, Bool, true, false, ◌&&◌, not, Option, none, List, [], ◌∷◌, arith, Bool-cases, inl,
  inr, if◌then◌else◌, ==_refl,
}
use yarrow.Uploads.Model.{Bytes, Key, same_key, chunk_object, document_object, drop_object}
use yarrow.Uploads.Chunks.{delete_objects, has_key}

pub same_key_refl : (k : Key) → same_key k k ≡ true
same_key_refl (chunk_object s i p) = ground (arith, ==_refl s, ==_refl i, ==_refl p)
same_key_refl (document_object a) = ==_refl a

pub same_key_eq : (j k : Key) → same_key j k ≡ true → j ≡ k
same_key_eq (chunk_object s i p) (chunk_object t j q) h = ground arith
same_key_eq (chunk_object s i p) (document_object b) h = cc
same_key_eq (document_object a) (chunk_object t j q) h = cc
same_key_eq (document_object a) (document_object b) h = ground arith

module _ (fails : Key → Bool) (k : Key) where
  -- An object is gone exactly when its key was listed and its deletion went through.
  pub objects_left :
      (keys : List Key) (objects : Key → Option Bytes)
      → (delete_objects fails keys objects).1 k
        ≡ (if has_key k keys && not (fails k) then none else objects k)
  unfolding delete_objects
  objects_left [] objects = refl
  objects_left (key ∷ keys) objects = elim (Bool-cases (same_key k key)) [
    | inl same ↦ ground (
      arith,
      objects_left keys (if fails key then objects else drop_object key objects),
      ap fails (same_key_eq k key same),
    )
    | inr differs ↦
        ground (arith, objects_left keys (if fails key then objects else drop_object key objects))
  ]

  -- A key is reported exactly when it was listed and its deletion failed.
  pub keys_kept :
      (keys : List Key) (objects : Key → Option Bytes)
      → has_key k (delete_objects fails keys objects).0 ≡ (has_key k keys && fails k)
  unfolding delete_objects
  keys_kept [] objects = refl
  keys_kept (key ∷ keys) objects = elim (Bool-cases (same_key k key)) [
    | inl same ↦ ground (
      arith,
      keys_kept keys (if fails key then objects else drop_object key objects),
      ap fails (same_key_eq k key same),
    )
    | inr differs ↦
        ground (arith, keys_kept keys (if fails key then objects else drop_object key objects))
  ]

  -- A listed key that is not reported has no object left.
  pub gone :
      (keys : List Key) (objects : Key → Option Bytes)
      → has_key k keys ≡ true
      → has_key k (delete_objects fails keys objects).0 ≡ false
      → (delete_objects fails keys objects).1 k ≡ none
  gone keys objects listed unreported =
      ground (arith, keys_kept keys objects, objects_left keys objects)
