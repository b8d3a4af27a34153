-- ===== src/Tables/Document.antt =====
-- Merging and splitting all the tables of a document keeps each of them whole
-- (packages/yarrow-db/src/yarrow_db/utils/table_utils.py).
use yarrow.Prelude.{
  ℕ, ◌+◌, ◌≡◌, refl, ◌∙◌, Bool, false, ◌&&◌, Option, none, some, List, [], ◌∷◌, ◌++◌, leb, ◌==◌,
  length, keep, find_first-All, keep-All, sum_of, is_none, or_else, any, subst, All, arith,
  Bool-cases, Option-cases, inl, inr,
}
use yarrow.Prelude.Sorting.{insert_by, sort_by, All-sort_by}
use yarrow.Tables.Model.{
  RegionTable, Table, Session, before, ordered_parts, is_consecutive, region_of,
}
use yarrow.Tables.Ops.{split_table, page_number}
use yarrow.Tables.Whole.{
  find_table, Interval, interval, boundary, last_of, intervals, interval_le, in_order, find_part,
  merge_if_consecutive, merge_neighbours, merge_down, merge_consecutive_tables, replace_table,
  split_each, split_consecutive_tables,
}
use yarrow.Tables.Tiling.{IsTiled}
use yarrow.Tables.Merging.{merge_two_tables-IsTiled}
use yarrow.Tables.Gaps.{OnPage}
use yarrow.Tables.Splitting.{split_table-IsTiled}

abbrev pub rows_of : List Table → ℕ
rows_of = sum_of (λ (t : Table). t.row_count)

rows_of-append : (ts us : List Table) → rows_of (ts ++ us) ≡ rows_of ts + rows_of us
rows_of-append [] us = omega arith
rows_of-append (t ∷ ts) us = omega (arith, rows_of-append ts us)

module _ (le : Table → Table → Bool) where
  rows_of-insert_by :
      (t : Table) (ts : List Table) → rows_of (insert_by le t ts) ≡ t.row_count + rows_of ts
  rows_of-insert_by t [] = refl
  rows_of-insert_by t (u ∷ ts) = elim (Bool-cases (le t u)) [
    | inl first ↦ rw first refl
    | inr later ↦ rw later (omega (arith, rows_of-insert_by t ts))
  ]

  rows_of-sort_by : (ts : List Table) → rows_of (sort_by le ts) ≡ rows_of ts
  rows_of-sort_by [] = refl
  rows_of-sort_by (t ∷ ts) = omega (arith, rows_of-insert_by t (sort_by le ts), rows_of-sort_by ts)

All-append : {A : Type 0} (P : A → Type 0) (xs ys : List A) → All P xs → All P ys → All P (xs ++ ys)
All-append P [] ys h k = k
All-append P (x ∷ xs) ys (one, h) k = (one, All-append P xs ys h k)

none_null :
    (items : List Interval)
    → All (λ (i : Interval). is_none i.start_page ≡ false) items
    → any (λ (i : Interval). is_none i.start_page) items ≡ false
none_null [] h = refl
none_null (i ∷ items) (one, h) = rw one (none_null items h)

merge_if_consecutive-AllTiled :
    (session : Session) (table next : Option Table) (last first : Option RegionTable)
    → ((t : Table) → table ≡ some t → IsTiled t)
    → ((t : Table) → next ≡ some t → IsTiled t)
    → All IsTiled session.tables
    → All IsTiled (merge_if_consecutive session table next last first).tables
merge_if_consecutive-AllTiled session none next last first h k all = all
merge_if_consecutive-AllTiled session (some table) none last first h k all = all
merge_if_consecutive-AllTiled session (some table) (some next) none first h k all = all
merge_if_consecutive-AllTiled session (some table) (some next) (some last) none h k all = all
merge_if_consecutive-AllTiled session (some table) (some next) (some last) (some first) h k all =
    elim (Bool-cases (is_consecutive session last first)) [
      | inl near ↦
          rw near
            (merge_two_tables-IsTiled table next session.tables (h table refl) (k next refl) all)
      | inr apart ↦ rw apart all
    ]

merge_down-AllTiled :
    (items : List Interval) (session : Session)
    → All IsTiled session.tables
    → All IsTiled (merge_down items session).tables
unfolding merge_down merge_neighbours
merge_down-AllTiled [] session all = all
merge_down-AllTiled (item ∷ []) session all = all
merge_down-AllTiled (item ∷ next ∷ items) session all =
    let below = merge_down (next ∷ items) session in
    let rest = merge_down-AllTiled (next ∷ items) session all in
    merge_if_consecutive-AllTiled below (find_table item.table_id below.tables)
      (find_table next.table_id below.tables) (find_part item.last_part_id below.tables)
      (find_part next.first_part_id below.tables)
      (λ t found. find_first-All IsTiled _ t below.tables rest found)
      (λ t found. find_first-All IsTiled _ t below.tables rest found) rest

boundary-All :
    (P : RegionTable → Type 0) (ps : List RegionTable) (ends : RegionTable × RegionTable)
    → All P ps
    → boundary ps ≡ some ends
    → P ends.0
unfolding boundary
boundary-All P [] ends h found = absurd (cc found)
boundary-All P (p ∷ ps) ends h found =
    let same : (p, last_of p ps) ≡ ends = cc found in
    subst (λ (e : RegionTable × RegionTable). P e.0) same h.0

module _ (session : Session) where
  no_number : (p : RegionTable) → region_of session p ≡ none → page_number session p ≡ none
  unfolding page_number
  no_number p missing = rw (missing, page_number) refl

  interval-some :
      (table : Table) (ends : RegionTable × RegionTable)
      → OnPage session ends.0
      → (i : Interval) × (interval session table ends ≡ some i) × (is_none i.start_page ≡ false)
  unfolding interval
  interval-some table ends (n, placed) = elim (Option-cases (region_of session ends.0)) [
    | inl missing ↦ absurd (cc (no_number ends.0 missing, placed))
    | inr (region, found) ↦ (
      record {
        table_id = table.id;
        start_page = some n;
        start_order = or_else region.reading_order 0;
        first_part_id = ends.0.id;
        last_part_id = ends.1.id;
      },
      rw (found, placed, interval) refl,
      refl,
    )
  ]

  intervals-some :
      (tables : List Table)
      → All (λ (t : Table). All (OnPage session) t.parts) tables
      → (items : List Interval) × (intervals session tables ≡ some items)
        × All (λ (i : Interval). is_none i.start_page ≡ false) items
  unfolding intervals ordered_parts
  intervals-some [] h = ([], refl, tt)
  intervals-some (t ∷ tables) (placed, h) =
      let (items, listed, numbered) = intervals-some tables h in
      elim (Option-cases (boundary (ordered_parts t))) [
        | inl bare ↦ (items, rw (bare, intervals) listed, numbered)
        | inr (ends, found) ↦
            let (i, made, paged) = interval-some t ends (
              boundary-All (OnPage session) (ordered_parts t) ends
                (All-sort_by before (OnPage session) t.parts placed) found) in
            (i ∷ items, rw (found, made, listed, intervals) refl, (paged, numbered))
      ]

  -- Sorting the intervals raises nothing when all their pages are numbered.
  in_order-some :
      (items : List Interval)
      → All (λ (i : Interval). is_none i.start_page ≡ false) items
      → in_order items ≡ some (sort_by interval_le items)
  unfolding in_order
  in_order-some items h = rw (none_null items h) refl

-- If the parts of every table cover its rows and are on numbered pages, merging all consecutive
-- tables of a document goes through, and leaves tables whose parts cover their rows.
pub merge_consecutive_tables-IsTiled :
    (document_id : ℕ) (session : Session)
    → All IsTiled session.tables
    → All (λ (t : Table). All (OnPage session) t.parts) session.tables
    → (after : Session) × (merge_consecutive_tables document_id session ≡ some after)
      × All IsTiled after.tables
unfolding merge_consecutive_tables
merge_consecutive_tables-IsTiled document_id session tiled placed =
    let mine = keep (λ (t : Table). t.document_id == document_id) session.tables in
    let (items, listed, numbered) =
      intervals-some session mine (keep-All _ _ session.tables placed) in
    let sorted = in_order-some session items numbered in
    (
      merge_down (sort_by interval_le items) session,
      rw (listed, sorted) refl,
      merge_down-AllTiled (sort_by interval_le items) session tiled,
    )

replace_table-All :
    (P : Table → Type 0) (id : ℕ) (results tables : List Table)
    → All P results
    → All P tables
    → All P (replace_table id results tables)
replace_table-All P id results [] h k = tt
replace_table-All P id results (t ∷ tables) h (one, k) =
    let rest = replace_table-All P id results tables h k in
    elim (Bool-cases (t.id == id)) [
      | inl same ↦ rw same (All-append P results _ h rest)
      | inr other ↦ rw other (one, rest)
    ]

split_each-AllTiled :
    (uuid4 : ℕ → ℕ) (made : ℕ) (stitched tables : List Table)
    → All IsTiled stitched
    → All IsTiled tables
    → All IsTiled (split_each uuid4 made stitched tables).0
      × All IsTiled (split_each uuid4 made stitched tables).1
      × (rows_of (split_each uuid4 made stitched tables).0 ≡ rows_of stitched)
unfolding split_each
split_each-AllTiled uuid4 made [] tables h k = (tt, k, refl)
split_each-AllTiled uuid4 made (t ∷ stitched) tables (one, h) k =
    let results = split_table (λ n. uuid4 (made + n)) t in
    let (tiled, rows) = split_table-IsTiled (λ n. uuid4 (made + n)) t one in
    let (others, after, total) =
      split_each-AllTiled uuid4 (made + length results) stitched (replace_table t.id results tables)
        h (replace_table-All IsTiled t.id results tables tiled k) in
    (
      All-append IsTiled results _ tiled others,
      after,
      omega (
        arith,
        rows_of-append results
            (split_each uuid4 (made + length results) stitched
              (replace_table t.id results tables)).0,
        rows,
        total,
      ),
    )

-- If the parts of every table cover its rows, they do so after all stitched tables of a document
-- were split, also those of the resulting tables, which have as many rows together as the stitched
-- ones had.
pub split_consecutive_tables-IsTiled :
    (uuid4 : ℕ → ℕ) (document_id : ℕ) (session : Session)
    → All IsTiled session.tables
    → (let (results, after) = split_consecutive_tables uuid4 document_id session in
        All IsTiled results
        × All IsTiled after.tables
        × (rows_of results
            ≡ rows_of (
                keep
                  (λ (t : Table). t.document_id == document_id && t.is_stitched)
                  session.tables)))
unfolding split_consecutive_tables
split_consecutive_tables-IsTiled uuid4 document_id session tiled =
    let by_id = λ (a b : Table). leb a.id b.id in
    let stitched =
      keep (λ (t : Table). t.document_id == document_id && t.is_stitched) session.tables in
    let (results, after, rows) =
      split_each-AllTiled uuid4 0 (sort_by by_id stitched) session.tables
        (All-sort_by by_id IsTiled stitched (keep-All IsTiled _ session.tables tiled)) tiled in
    (results, after, rows ∙ rows_of-sort_by by_id stitched)
