-- ===== src/Tables/Tiling.antt =====
-- A table's parts cover its rows without holes or overlaps
-- (packages/yarrow-db/src/yarrow_db/utils/table_utils.py).
use yarrow.Prelude.{
  ℕ, ◌+◌, ◌≤◌, ◌<◌, ◌≡◌, refl, ap, sym, List, [], ◌∷◌, ◌++◌, arith, length, All, All-imp, subst,
  subst₂, sum_of,
}
use yarrow.Prelude.Sorting.{IsSorted}
use yarrow.Tables.Model.{RegionTable, Table, before, ordered_parts, row_span}
use yarrow.Tables.Ops.{move_parts}

-- The parts belong to one table, are numbered in turn, have a row each at least, and each starts
-- right after its predecessor's last row; `stop` is the row after the last one.
unfoldable pub Tiles : ℕ → ℕ → ℕ → List RegionTable → ℕ → Type 0
Tiles id order row [] stop = row ≡ stop
Tiles id order row (p ∷ ps) stop =
    (p.table_id ≡ id)
    × (p.reading_order ≡ order)
    × (p.row_start ≡ row)
    × (row ≤ p.row_end)
    × Tiles id (order + 1) (p.row_end + 1) ps stop

unfoldable pub IsTiled : Table → Type 0
IsTiled table = Tiles table.id 0 0 (ordered_parts table) table.row_count

pub Tiles-cast :
    (id : ℕ) {order order' row row' stop stop' : ℕ} (ps : List RegionTable)
    → order ≡ order'
    → row ≡ row'
    → stop ≡ stop'
    → Tiles id order row ps stop
    → Tiles id order' row' ps stop'
Tiles-cast id {order = order} {row' = row'} {stop' = stop'} ps o r s h =
    subst (λ n. Tiles id n row' ps stop') o (subst₂ (λ a b. Tiles id order a ps b) r s h)

pub Tiles-append :
    (id order row : ℕ) (ps qs : List RegionTable) (middle stop : ℕ)
    → Tiles id order row ps middle
    → Tiles id (order + length ps) middle qs stop
    → Tiles id order row (ps ++ qs) stop
unfolding Tiles
Tiles-append id order row [] qs middle stop h k = Tiles-cast id qs (omega arith) (sym h) refl k
Tiles-append id order row (p ∷ ps) qs middle stop (own, number, start, some_rows, rest) k = (
  own,
  number,
  start,
  some_rows,
  Tiles-append id (order + 1) (p.row_end + 1) ps qs middle stop rest
      (subst (λ o. Tiles id o middle qs stop) (omega arith) k),
)

pub move_parts-Tiles :
    (id new order new_order row offset : ℕ) (ps : List RegionTable) (stop : ℕ)
    → Tiles id order row ps stop
    → Tiles new new_order (row + offset) (move_parts new offset new_order ps) (stop + offset)
unfolding Tiles move_parts
move_parts-Tiles id new order new_order row offset [] stop h = ap (λ r. r + offset) h
move_parts-Tiles id new order new_order row offset (p ∷ ps) stop
      (own, number, start, some_rows, rest) =
    (
      refl,
      refl,
      ap (λ r. r + offset) start,
      omega arith,
      subst
          (λ r.
            Tiles new (new_order + 1) r (move_parts new offset (new_order + 1) ps) (stop + offset))
          (omega arith)
          (move_parts-Tiles id new (order + 1) (new_order + 1) (p.row_end + 1) offset ps stop rest),
    )

pub Tiles-orders :
    (id order row : ℕ) (ps : List RegionTable) (stop : ℕ)
    → Tiles id order row ps stop
    → All (λ p. (order ≤ p.reading_order) × (p.reading_order < order + length ps)) ps
unfolding Tiles
Tiles-orders id order row [] stop h = tt
Tiles-orders id order row (p ∷ ps) stop (own, number, start, some_rows, rest) = (
  omega arith,
  All-imp (λ q h. omega (arith, h.0, h.1)) ps
      (Tiles-orders id (order + 1) (p.row_end + 1) ps stop rest),
)

pub Tiles-IsSorted :
    (id order row : ℕ) (ps : List RegionTable) (stop : ℕ)
    → Tiles id order row ps stop
    → IsSorted before ps
unfolding Tiles
Tiles-IsSorted id order row [] stop h = tt
Tiles-IsSorted id order row (p ∷ ps) stop (own, number, start, some_rows, rest) = (
  All-imp (λ q h. ground (arith, h.0, number)) ps
      (Tiles-orders id (order + 1) (p.row_end + 1) ps stop rest),
  Tiles-IsSorted id (order + 1) (p.row_end + 1) ps stop rest,
)

-- The rows of the parts are the rows of the table.
pub Tiles-rows :
    (id order row : ℕ) (ps : List RegionTable) (stop : ℕ)
    → Tiles id order row ps stop
    → row + sum_of row_span ps ≡ stop
unfolding Tiles row_span
Tiles-rows id order row [] stop h = omega arith
Tiles-rows id order row (p ∷ ps) stop (own, number, start, some_rows, rest) =
    omega (arith, Tiles-rows id (order + 1) (p.row_end + 1) ps stop rest)
