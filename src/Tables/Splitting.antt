-- ===== src/Tables/Splitting.antt =====
-- What splitting and repacking leave (packages/yarrow-db/src/yarrow_db/utils/table_utils.py).
use yarrow.Prelude.{
  ℕ, ◌+◌, ◌-◌, ◌≤◌, ◌≡◌, refl, Bool, List, [], ◌∷◌, arith, All, sum_of, subst₂, ◌==◌,
}
use yarrow.Prelude.Sorting.{sort_by-sorted}
use yarrow.Tables.Model.{RegionTable, Table, before, ordered_parts, row_span}
use yarrow.Tables.Ops.{single, singles, split_parts, split_table, repack, run_table}
use yarrow.Tables.Tiling.{Tiles, IsTiled, Tiles-cast, Tiles-IsSorted, Tiles-rows}

-- A part that covers a row at least.
abbrev pub HasRows : RegionTable → Type 0
HasRows p = p.row_start ≤ p.row_end

pub Tiles-HasRows :
    (id order row : ℕ) (ps : List RegionTable) (stop : ℕ)
    → Tiles id order row ps stop
    → All HasRows ps
unfolding Tiles
Tiles-HasRows id order row [] stop h = tt
Tiles-HasRows id order row (p ∷ ps) stop (own, number, start, some_rows, rest) =
    (omega arith, Tiles-HasRows id (order + 1) (p.row_end + 1) ps stop rest)

repack-Tiles :
    (id order row : ℕ) (ps : List RegionTable)
    → All HasRows ps
    → Tiles id order row (repack id order row ps) (row + sum_of row_span ps)
unfolding Tiles repack row_span
repack-Tiles id order row [] h = omega arith
repack-Tiles id order row (p ∷ ps) (some_rows, rest) = (
  refl,
  refl,
  refl,
  omega arith,
  subst₂
      (λ start stop.
        Tiles id (order + 1) start
          (repack id (order + 1) (row + ((p.row_end + 1) - p.row_start)) ps) stop)
      (omega arith) (omega arith)
      (repack-Tiles id (order + 1) (row + ((p.row_end + 1) - p.row_start)) ps rest),
)

pub run_table-IsTiled :
    (table : Table) (run : List RegionTable) → All HasRows run → IsTiled (run_table table run)
unfolding IsTiled run_table ordered_parts
run_table-IsTiled table run h =
    let packed : Tiles table.id 0 0 (repack table.id 0 0 run) (sum_of row_span run) =
      Tiles-cast table.id (repack table.id 0 0 run) refl refl (omega arith)
        (repack-Tiles table.id 0 0 run h) in
    rw
      (sort_by-sorted before (repack table.id 0 0 run)
        (Tiles-IsSorted table.id 0 0 (repack table.id 0 0 run) (sum_of row_span run) packed))
      packed

single-IsTiled :
    (id : ℕ) (table : Table) (first : Bool) (p : RegionTable)
    → HasRows p
    → IsTiled (single id table first p)
unfolding IsTiled single ordered_parts Tiles row_span
single-IsTiled id table first p h = (refl, refl, refl, omega arith, omega arith)

singles-IsTiled :
    (uuid4 : ℕ → ℕ) (index : ℕ) (table : Table) (ps : List RegionTable)
    → All HasRows ps
    → All IsTiled (singles uuid4 index table ps)
      × (sum_of (λ (t : Table). t.row_count) (singles uuid4 index table ps) ≡ sum_of row_span ps)
unfolding singles single
singles-IsTiled uuid4 index table [] h = (tt, refl)
singles-IsTiled uuid4 index table (p ∷ ps) (some_rows, rest) =
    let (tiled, rows) = singles-IsTiled uuid4 (index + 1) table ps rest in
    ((single-IsTiled (uuid4 index) table (index == 0) p some_rows, tiled), omega (arith, rows))

split_parts-IsTiled :
    (uuid4 : ℕ → ℕ) (table : Table) (ps : List RegionTable)
    → ordered_parts table ≡ ps
    → Tiles table.id 0 0 ps table.row_count
    → All IsTiled (split_parts uuid4 table ps)
      × (sum_of (λ (t : Table). t.row_count) (split_parts uuid4 table ps) ≡ table.row_count)
unfolding split_parts IsTiled ordered_parts Tiles
split_parts-IsTiled uuid4 table [] same h = ((rw same h, tt), omega arith)
split_parts-IsTiled uuid4 table (p ∷ []) same h =
    let (own, number, start, some_rows, rest) = h in
    (
      (rw same (own, number, start, some_rows, unfold row_span in omega arith), tt),
      omega (arith, Tiles-rows table.id 0 0 (p ∷ []) table.row_count h),
    )
split_parts-IsTiled uuid4 table (p ∷ q ∷ ps) same h =
    let (tiled, rows) =
      singles-IsTiled uuid4 0 table (p ∷ q ∷ ps)
        (Tiles-HasRows table.id 0 0 (p ∷ q ∷ ps) table.row_count h) in
    (tiled, omega (arith, rows, Tiles-rows table.id 0 0 (p ∷ q ∷ ps) table.row_count h))

-- Splitting a table whose parts cover its rows gives tables whose parts cover theirs, and which have
-- as many rows together as the table had.
pub split_table-IsTiled :
    (uuid4 : ℕ → ℕ) (table : Table)
    → IsTiled table
    → All IsTiled (split_table uuid4 table)
      × (sum_of (λ (t : Table). t.row_count) (split_table uuid4 table) ≡ table.row_count)
unfolding split_table
split_table-IsTiled uuid4 table h =
    split_parts-IsTiled uuid4 table (ordered_parts table) refl (unfold IsTiled in h)
