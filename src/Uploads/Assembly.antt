-- ===== src/Uploads/Assembly.antt =====
-- The assembled file of a sound session is its chunks in the order of their index, and has the
-- declared size (backend/app/api/v1/endpoints/uploads.py).
use yarrow.Prelude.{
  ℕ, zero, suc, ◌<◌, ◌≤◌, ◌+◌, ◌-◌, ◌*◌, leb, ◌≡◌, ◌∙◌, ap, sym, refl, inl, inr, Bool, false,
  Option, none, some, List, [], ◌∷◌, ◌++◌, map, arith, Bool-cases, ◌==◌, length, All, range_from,
  sum_of,
}
use mathlib.Core.List.{append-nil, append_assoc}
use yarrow.Prelude.Sorting.{sort_by, insert_by, All-sort_by, length-sort_by}
use yarrow.Uploads.Model.{Bytes, Externals, Upload, Key, Chunk}
use yarrow.Uploads.Chunks.{find_chunk, expected_chunk_size}
use yarrow.Uploads.Confirmed.{IsStored, IsDistinct}
use yarrow.Uploads.Finalize.{Assembled, append_chunk, assemble, empty_file, in_order, keys_in_order}

abbrev by_index : Chunk → Chunk → Bool
by_index a b = leb a.chunk_index b.chunk_index

abbrev index_of : Chunk → ℕ
index_of c = c.chunk_index

find_chunk-insert :
    (i : ℕ) (c : Chunk) (cs : List Chunk)
    → (c.chunk_index == i) ≡ false
    → find_chunk i cs ≡ none
    → find_chunk i (insert_by by_index c cs) ≡ none
find_chunk-insert i c [] ne absent = rw ne
find_chunk-insert i c (d ∷ cs) ne absent = ground (arith, find_chunk-insert i c cs ne)

-- Indexes rise strictly from `k`.
abbrev Rises : ℕ → List Chunk → Type 0
Rises k [] = Unit
Rises k (c ∷ cs) = (k ≤ c.chunk_index) × Rises (suc c.chunk_index) cs

Rises-insert :
    (k : ℕ) (c : Chunk) (cs : List Chunk)
    → k ≤ c.chunk_index
    → find_chunk c.chunk_index cs ≡ none
    → Rises k cs
    → Rises k (insert_by by_index c cs)
Rises-insert k c [] low absent h = (low, tt)
Rises-insert k c (d ∷ cs) low absent h = elim (Bool-cases (by_index c d)) [
  | inl first ↦ rw first (low, (ground arith, h.1))
  | inr later ↦
      rw later (h.0, Rises-insert (suc d.chunk_index) c cs (ground arith) (ground arith) h.1)
]

find_chunk-sort :
    (i : ℕ) (cs : List Chunk) → find_chunk i cs ≡ none → find_chunk i (sort_by by_index cs) ≡ none
find_chunk-sort i [] absent = refl
find_chunk-sort i (c ∷ cs) absent =
    find_chunk-insert i c (sort_by by_index cs) (ground arith) (find_chunk-sort i cs (ground arith))

Rises-sort : (cs : List Chunk) → IsDistinct cs → Rises 0 (sort_by by_index cs)
Rises-sort [] d = tt
Rises-sort (c ∷ cs) d =
    Rises-insert 0 c (sort_by by_index cs) (omega arith) (find_chunk-sort c.chunk_index cs d.0)
      (Rises-sort cs d.1)

-- Strictly rising indexes from `k` that stay below `e` number at most `e - k`.
Rises-le :
    (k e : ℕ) (cs : List Chunk)
    → k ≤ e
    → Rises k cs
    → All (λ c. index_of c < e) cs
    → k + length cs ≤ e
Rises-le k e [] low h below = omega arith
Rises-le k e (c ∷ cs) low h below =
    omega (arith, Rises-le (suc c.chunk_index) e cs below.0 h.1 below.1)

-- If they number exactly that, they are all the numbers from `k` to `e`.
Rises-full :
    (k e : ℕ) (cs : List Chunk)
    → Rises k cs
    → All (λ c. index_of c < e) cs
    → k + length cs ≡ e
    → map index_of cs ≡ range_from k (length cs)
Rises-full k e [] h below full = refl
Rises-full k e (c ∷ cs) h below full =
    let first : c.chunk_index ≡ k =
      omega (arith, Rises-le (suc c.chunk_index) e cs below.0 h.1 below.1) in
    rw (Rises-full (suc c.chunk_index) e cs h.1 below.1 (omega arith)) (rw first)

module _ (e : Externals) (u : Upload) (objects : Key → Option Bytes) where
  stored_below :
      (cs : List Chunk) → All (IsStored e u objects) cs → All (λ c. index_of c < u.chunk_count) cs
  stored_below [] h = tt
  stored_below (c ∷ cs) (s, rest) = (s.in_range, stored_below cs rest)

  -- The indexes of a complete session's chunks, in order.
  pub complete_indexes :
      (cs : List Chunk)
      → All (IsStored e u objects) cs
      → IsDistinct cs
      → length cs ≡ u.chunk_count
      → map index_of (in_order cs) ≡ range_from 0 u.chunk_count
  unfolding in_order
  complete_indexes cs stored distinct full =
      let sorted = sort_by by_index cs in
      let same = length-sort_by by_index cs ∙ full in
      Rises-full 0 u.chunk_count sorted (Rises-sort cs distinct)
        (stored_below sorted (All-sort_by by_index (IsStored e u objects) cs stored))
        (omega (arith, same))
      ∙ ap (range_from 0) same

  stored_sizes :
      (cs : List Chunk)
      → All (IsStored e u objects) cs
      → sum_of (λ (c : Chunk). c.size_bytes) cs ≡ sum_of (expected_chunk_size u) (map index_of cs)
  stored_sizes [] h = refl
  stored_sizes (c ∷ cs) (s, rest) = omega (arith, s.expected, stored_sizes cs rest)

-- The sizes of a session as `create_upload_session` sets them: as many chunks as the file needs.
pub record IsPlanned (u : Upload) : Type 0 where
  pub some_chunk : 0 < u.chunk_count
  pub all_needed : u.chunk_size_bytes * (u.chunk_count - 1) < u.total_size_bytes
  pub enough : u.total_size_bytes ≤ u.chunk_size_bytes * u.chunk_count

module _ (u : Upload) where
  expected_full : (k : ℕ) → k < u.chunk_count - 1 → expected_chunk_size u k ≡ u.chunk_size_bytes
  unfolding expected_chunk_size
  expected_full k h = ground arith

  expected_last :
      (k : ℕ)
      → k ≡ u.chunk_count - 1
      → expected_chunk_size u k ≡ u.total_size_bytes - u.chunk_size_bytes * (u.chunk_count - 1)
  unfolding expected_chunk_size
  expected_last k h = ground arith

  full_chunks :
      (k n : ℕ)
      → k + n ≡ u.chunk_count - 1
      → sum_of (expected_chunk_size u) (range_from k (suc n))
        ≡ u.chunk_size_bytes * n + (u.total_size_bytes - u.chunk_size_bytes * (u.chunk_count - 1))
  full_chunks k zero e = omega (arith, expected_last k (omega arith))
  full_chunks k (suc n) e =
      omega (arith, expected_full k (omega arith), full_chunks (suc k) n (omega arith))

  -- The expected sizes of all the chunks add up to the declared size.
  pub expected_total :
      IsPlanned u → sum_of (expected_chunk_size u) (range_from 0 u.chunk_count) ≡ u.total_size_bytes
  expected_total p =
      let count : u.chunk_count ≡ suc (u.chunk_count - 1) = omega (arith, p.some_chunk) in
      ap (λ n. sum_of (expected_chunk_size u) (range_from 0 n)) count
      ∙ full_chunks 0 (u.chunk_count - 1) (omega arith)
      ∙ omega (arith, p.all_needed)

  -- No chunk is empty or longer than `chunk_size_bytes`.
  pub expected_bounds :
      (k : ℕ)
      → IsPlanned u
      → k < u.chunk_count
      → (0 < expected_chunk_size u k) × (expected_chunk_size u k ≤ u.chunk_size_bytes)
  unfolding expected_chunk_size
  expected_bounds k p h =
      let count : u.chunk_count ≡ suc (u.chunk_count - 1) = omega (arith, p.some_chunk) in
      let product : u.chunk_size_bytes * u.chunk_count
          ≡ u.chunk_size_bytes * (u.chunk_count - 1) + u.chunk_size_bytes =
        ap (λ (t : ℕ). u.chunk_size_bytes * t) count ∙ omega arith in
      ground (arith, product, p.all_needed, p.enough)

-- The bytes under some keys, one object after another.
abbrev pub contents : (Key → Option Bytes) → List Key → Bytes
contents objects [] = []
contents objects (key ∷ keys) =
    (elim (objects key) [ none ↦ [] | some bytes ↦ bytes ]) ++ contents objects keys

abbrev never : Key → Bool
never _ = false

module _ (e : Externals) (u : Upload) (objects : Key → Option Bytes) where
  assemble_stored :
      (file : Assembled) (cs : List Chunk)
      → All (IsStored e u objects) cs
      → (after : Assembled) × (assemble objects file (map (λ (c : Chunk). c.storage_key) cs)
          ≡ some after)
        × (after.spool ≡ file.spool ++ contents objects (map (λ (c : Chunk). c.storage_key) cs))
        × (after.size ≡ file.size + sum_of (λ (c : Chunk). c.size_bytes) cs)
  unfolding assemble
  assemble_stored file [] h = (file, refl, sym (append-nil file.spool), omega arith)
  assemble_stored file (c ∷ cs) (s, rest) =
      let (after, done, spool, size) = assemble_stored (append_chunk file s.bytes) cs rest in
      (
        after,
        rw s.held done,
        rw s.held (spool ∙ append_assoc file.spool s.bytes _),
        omega (arith, size, s.sized),
      )

  -- With its chunks stored and complete, an upload assembles to their bytes in the order of their
  -- index, which has exactly the declared size; the indexes are all there are.
  pub assemble_complete :
      (cs : List Chunk)
      → IsPlanned u
      → All (IsStored e u objects) cs
      → IsDistinct cs
      → length cs ≡ u.chunk_count
      → (map index_of (in_order cs) ≡ range_from 0 u.chunk_count)
        × ((file : Assembled) × (assemble objects empty_file (keys_in_order cs) ≡ some file)
            × (file.spool ≡ contents objects (keys_in_order cs))
            × (file.size ≡ u.total_size_bytes))
  unfolding in_order
  assemble_complete cs planned stored distinct full =
      let sorted = All-sort_by by_index (IsStored e u objects) cs stored in
      let indexes = complete_indexes e u objects cs stored distinct full in
      let (file, done, spool, size) = assemble_stored empty_file (sort_by by_index cs) sorted in
      let total =
        stored_sizes e u objects (sort_by by_index cs) sorted
        ∙ ap (sum_of (expected_chunk_size u)) indexes
        ∙ expected_total u planned in
      (indexes, (file, done, spool, omega (arith, size, total)))
