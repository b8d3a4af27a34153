-- ===== src/Uploads/Confirmed.antt =====
-- What confirmed chunks guarantee, and that storing a chunk keeps it
-- (backend/app/api/v1/endpoints/uploads.py).
use yarrow.Prelude.{
  ℕ, ◌∙◌, ◌<◌, ◌≡◌, refl, inl, inr, Bool, Option, none, some, List, [], ◌∷◌, ◌++◌, arith,
  Bool-cases, All, length, keep,
}
use yarrow.Uploads.Model.{Bytes, Externals, Upload, Key, chunk_key, Chunk, Db, put_object}
use yarrow.Uploads.Deletion.{objects_left, keys_kept}
use yarrow.Uploads.Chunks.{delete_objects, has_key, Part, expected_chunk_size, find_chunk}

-- A confirmed chunk of `upload`: its object holds bytes of the expected length with its digest.
pub record IsStored (e : Externals) (upload : Upload) (objects : Key → Option Bytes) (c : Chunk)
    : Type 0 where
  pub in_range : c.chunk_index < upload.chunk_count
  pub keyed : c.storage_key ≡ chunk_key upload.id c.chunk_index c.sha256
  pub bytes : Bytes
  pub held : objects c.storage_key ≡ some bytes
  pub sized : length bytes ≡ c.size_bytes
  pub expected : c.size_bytes ≡ expected_chunk_size upload c.chunk_index
  pub hashed : e.sha256 bytes ≡ c.sha256

-- No index has two rows.
abbrev pub IsDistinct : List Chunk → Type 0
IsDistinct [] = Unit
IsDistinct (c ∷ cs) = (find_chunk c.chunk_index cs ≡ none) × IsDistinct cs

pub record IsSound (e : Externals) (upload : Upload) (db : Db) : Type 0 where
  pub present : db.upload ≡ some upload
  pub stored : All (IsStored e upload db.objects) db.chunks
  pub distinct : IsDistinct db.chunks

-- A body that passed the checks before the lock.
pub record Fits (e : Externals) (upload : Upload) (part : Part) : Type 0 where
  pub in_range : part.index < upload.chunk_count
  pub sized : length part.body ≡ expected_chunk_size upload part.index
  pub hashed : e.sha256 part.body ≡ part.digest

pub find_chunk-append :
    (i : ℕ) (xs ys : List Chunk)
    → find_chunk i (xs ++ ys)
      ≡ (elim (find_chunk i xs) [ none ↦ find_chunk i ys | some c ↦ some c ])
find_chunk-append i [] ys = refl
find_chunk-append i (x ∷ xs) ys = ground (arith, find_chunk-append i xs ys)

pub IsDistinct-append_one :
    (c : Chunk) (xs : List Chunk)
    → IsDistinct xs
    → find_chunk c.chunk_index xs ≡ none
    → IsDistinct (xs ++ c ∷ [])
IsDistinct-append_one c [] d h = (refl, tt)
IsDistinct-append_one c (x ∷ xs) d h = (
  ground (arith, find_chunk-append x.chunk_index xs (c ∷ [])),
  IsDistinct-append_one c xs d.1 (ground arith),
)

module _ (e : Externals) (upload : Upload) (index digest : ℕ) (body : Bytes) where
  -- A new object's key belongs to no confirmed chunk of another index.
  pub put_keeps :
      (objects : Key → Option Bytes) (cs : List Chunk)
      → All (IsStored e upload objects) cs
      → find_chunk index cs ≡ none
      → All (IsStored e upload (put_object (chunk_key upload.id index digest) body objects)) cs
  put_keeps objects [] h absent = tt
  put_keeps objects (c ∷ cs) (s, rest) absent = (
    record {
      in_range = s.in_range;
      keyed = s.keyed;
      bytes = s.bytes;
      held = unfold chunk_key in rw s.keyed (ground (arith, s.held, s.keyed));
      sized = s.sized;
      expected = s.expected;
      hashed = s.hashed;
    },
    put_keeps objects cs rest (ground arith),
  )

-- The session's sizes, which no request changes after the session was created.
abbrev pub SamePlan : Upload → Upload → Type 0
SamePlan u v =
    (u.id ≡ v.id)
    × (u.chunk_count ≡ v.chunk_count)
    × (u.chunk_size_bytes ≡ v.chunk_size_bytes)
    × (u.total_size_bytes ≡ v.total_size_bytes)

pub expected_chunk_size-SamePlan :
    (u v : Upload) (i : ℕ) → SamePlan u v → expected_chunk_size u i ≡ expected_chunk_size v i
unfolding expected_chunk_size
expected_chunk_size-SamePlan u v i h = rw (h.1, h.2, h.3)

module _ (e : Externals) (u v : Upload) (same : SamePlan u v) (objects : Key → Option Bytes) where
  pub All-SamePlan :
      (cs : List Chunk) → All (IsStored e u objects) cs → All (IsStored e v objects) cs
  All-SamePlan [] h = tt
  All-SamePlan (c ∷ cs) (s, rest) = (
    record {
      in_range = rw (← same.1) s.in_range;
      keyed = rw (← same.0) s.keyed;
      bytes = s.bytes;
      held = s.held;
      sized = s.sized;
      expected = s.expected ∙ expected_chunk_size-SamePlan u v c.chunk_index same;
      hashed = s.hashed;
    },
    All-SamePlan cs rest,
  )

-- The chunks whose object could not be deleted are as they were.
module _ (e : Externals) (upload : Upload) (fails : Key → Bool) where
  pub kept-IsStored :
      (all_keys : List Key) (objects : Key → Option Bytes) (cs : List Chunk)
      → All (IsStored e upload objects) cs
      → All
          (IsStored e upload (delete_objects fails all_keys objects).1)
          (keep (λ c. has_key c.storage_key (delete_objects fails all_keys objects).0) cs)
  kept-IsStored all_keys objects [] h = tt
  kept-IsStored all_keys objects (c ∷ cs) (s, rest) =
      elim (Bool-cases (has_key c.storage_key (delete_objects fails all_keys objects).0)) [
        | inl kept ↦ rw kept (
          record {
            in_range = s.in_range;
            keyed = s.keyed;
            bytes = s.bytes;
            held =
                objects_left fails c.storage_key all_keys objects
                ∙ ground (arith, keys_kept fails c.storage_key all_keys objects, s.held);
            sized = s.sized;
            expected = s.expected;
            hashed = s.hashed;
          },
          kept-IsStored all_keys objects cs rest,
        )
        | inr gone ↦ rw gone (kept-IsStored all_keys objects cs rest)
      ]

find_chunk-keep :
    (i : ℕ) (p : Chunk → Bool) (cs : List Chunk)
    → find_chunk i cs ≡ none
    → find_chunk i (keep p cs) ≡ none
find_chunk-keep i p [] h = refl
find_chunk-keep i p (c ∷ cs) h = ground (arith, find_chunk-keep i p cs)

pub IsDistinct-keep : (p : Chunk → Bool) (cs : List Chunk) → IsDistinct cs → IsDistinct (keep p cs)
IsDistinct-keep p [] d = tt
IsDistinct-keep p (c ∷ cs) d = elim (Bool-cases (p c)) [
  | inl kept ↦ rw kept (find_chunk-keep c.chunk_index p cs d.0, IsDistinct-keep p cs d.1)
  | inr gone ↦ rw gone (IsDistinct-keep p cs d.1)
]
