-- ===== src/Tables/Merging.antt =====
-- What a merge leaves (packages/yarrow-db/src/yarrow_db/utils/table_utils.py).
use yarrow.Prelude.{
  ℕ, ◌+◌, ◌≡◌, refl, ap, ◌∙◌, Bool, true, not, List, [], ◌∷◌, ◌++◌, arith, length, All, All-imp,
  map, inl, inr, Bool-cases, ◌==◌, keep,
}
use yarrow.Prelude.Sorting.{sort_by, All-unsort, sort_by-append, length-sort_by}
use yarrow.Tables.Model.{RegionTable, Table, before, ordered_parts}
use yarrow.Tables.Ops.{move_parts, merged, merge_two_tables, store_table}
use yarrow.Tables.Tiling.{
  Tiles, IsTiled, Tiles-cast, Tiles-append, move_parts-Tiles, Tiles-orders, Tiles-IsSorted,
}

pub region_ids : List RegionTable → List ℕ
region_ids = map (λ (p : RegionTable). p.region_id)

region_ids-append :
    (ps qs : List RegionTable) → region_ids (ps ++ qs) ≡ region_ids ps ++ region_ids qs
unfolding region_ids
region_ids-append [] qs = refl
region_ids-append (p ∷ ps) qs = ap (λ ids. p.region_id ∷ ids) (region_ids-append ps qs)

region_ids-move_parts :
    (id offset order : ℕ) (ps : List RegionTable)
    → region_ids (move_parts id offset order ps) ≡ region_ids ps
unfolding region_ids move_parts
region_ids-move_parts id offset order [] = refl
region_ids-move_parts id offset order (p ∷ ps) =
    ap (λ ids. p.region_id ∷ ids) (region_ids-move_parts id offset (order + 1) ps)

module _ (prev next : Table) (h : IsTiled prev) (k : IsTiled next) where
  moved : List RegionTable
  moved = move_parts prev.id prev.row_count (length prev.parts) (ordered_parts next)

  moved-Tiles :
      Tiles prev.id (length prev.parts) prev.row_count moved (prev.row_count + next.row_count)
  unfolding IsTiled moved
  moved-Tiles = Tiles-cast prev.id _ refl (omega arith) (omega arith) (
      move_parts-Tiles next.id prev.id 0 (length prev.parts) 0 prev.row_count (ordered_parts next)
        next.row_count k)

  -- Each part of the first table stands before each moved part.
  moved-after : All (λ x. All (λ y. before x y ≡ true) moved) prev.parts
  unfolding IsTiled ordered_parts
  moved-after =
      All-imp
        (λ x below.
          All-imp (λ y above. ground (arith, below.1, above.0, length-sort_by before prev.parts))
            moved
            (Tiles-orders prev.id (length prev.parts) prev.row_count moved
              (prev.row_count + next.row_count) moved-Tiles))
        prev.parts
        (All-unsort before _ prev.parts
          (Tiles-orders prev.id 0 0 (sort_by before prev.parts) prev.row_count h))

  ordered_parts-merged : ordered_parts (merged prev next) ≡ ordered_parts prev ++ moved
  unfolding ordered_parts merged moved
  ordered_parts-merged = sort_by-append before prev.parts moved moved-after (
      Tiles-IsSorted prev.id (length prev.parts) prev.row_count moved
        (prev.row_count + next.row_count) moved-Tiles)

  length-ordered_parts : length (ordered_parts prev) ≡ length prev.parts
  unfolding ordered_parts
  length-ordered_parts = length-sort_by before prev.parts

  -- Merging two tables whose parts cover their rows without holes or overlaps gives such a table,
  -- whose regions are those of the first and then those of the second, in their reading order.
  pub merged-IsTiled :
      IsTiled (merged prev next)
      × (region_ids (ordered_parts (merged prev next))
          ≡ region_ids (ordered_parts prev) ++ region_ids (ordered_parts next))
  unfolding IsTiled
  merged-IsTiled = rw ordered_parts-merged (
    unfold merged in
        Tiles-append prev.id 0 0 (ordered_parts prev) moved prev.row_count
          (prev.row_count + next.row_count) h
          (Tiles-cast prev.id moved (omega (arith, length-ordered_parts)) refl refl moved-Tiles),
    region_ids-append (ordered_parts prev) moved
        ∙ ap (λ ids. region_ids (ordered_parts prev) ++ ids)
            (unfold moved in
              region_ids-move_parts prev.id prev.row_count (length prev.parts)
                (ordered_parts next)),
  )

keep-All : (test : Table → Bool) (ts : List Table) → All IsTiled ts → All IsTiled (keep test ts)
keep-All test [] h = tt
keep-All test (t ∷ ts) (one, rest) = elim (Bool-cases (test t)) [
  | inl kept ↦ rw kept (one, keep-All test ts rest)
  | inr dropped ↦ rw dropped (keep-All test ts rest)
]

store_table-All :
    (table : Table) (ts : List Table)
    → IsTiled table
    → All IsTiled ts
    → All IsTiled (store_table table ts)
store_table-All table [] h all = tt
store_table-All table (t ∷ ts) h (one, rest) = elim (Bool-cases (t.id == table.id)) [
  | inl same ↦ rw same (h, store_table-All table ts h rest)
  | inr other ↦ rw other (one, store_table-All table ts h rest)
]

-- If the parts of every table of a document cover its rows, they still do when two of the tables
-- are merged.
pub merge_two_tables-IsTiled :
    (prev next : Table) (ts : List Table)
    → IsTiled prev
    → IsTiled next
    → All IsTiled ts
    → All IsTiled (merge_two_tables prev next ts)
unfolding merge_two_tables
merge_two_tables-IsTiled prev next ts h k all = elim (Bool-cases (prev.id == next.id)) [
  | inl same ↦ rw same all
  | inr other ↦ rw other (elim (Bool-cases (length next.parts == 0)) [
    | inl empty ↦ rw empty (keep-All (λ t. not (t.id == next.id)) ts all)
    | inr parts ↦ rw parts (
        keep-All (λ t. not (t.id == next.id)) (store_table (merged prev next) ts)
          (store_table-All (merged prev next) ts (merged-IsTiled prev next h k).0 all))
  ])
]
