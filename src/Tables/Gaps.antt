-- ===== src/Tables/Gaps.antt =====
-- Repacking a table that lost pages (packages/yarrow-db/src/yarrow_db/utils/table_utils.py).
use yarrow.Prelude.{
  ℕ, ◌+◌, ◌≡◌, refl, ◌∙◌, Bool, none, some, List, [], ◌∷◌, arith, All, sum_of, inl, inr, Bool-cases,
  if◌then◌else◌, ◌==◌,
}
use yarrow.Prelude.Sorting.{All-sort_by}
use yarrow.Tables.Model.{RegionTable, Table, Session, before, ordered_parts, row_span}
use yarrow.Tables.Ops.{
  follows, page_number, same_number, page_runs, onto_first, run_table, run_tables, split_runs,
  split_at_gaps,
}
use yarrow.Tables.Tiling.{IsTiled, Tiles-rows}
use yarrow.Tables.Splitting.{HasRows, Tiles-HasRows, run_table-IsTiled}

-- A part whose region is on a page with a number.
abbrev pub OnPage : Session → RegionTable → Type 0
OnPage session p = (n : ℕ) × (page_number session p ≡ some (some n))

abbrev rows_of : List (List RegionTable) → ℕ
rows_of = sum_of (sum_of row_span)

module _ (session : Session) where
  follows_lem :
      (p q : RegionTable)
      → OnPage session p
      → OnPage session q
      → (b : Bool) × (follows session p q ≡ some b)
  unfolding follows
  follows_lem p q (m, at_m) (n, at_n) = (same_number (some n) (m + 1), rw at_n (rw at_m refl))

  onto_first_lem :
      (p : RegionTable) (runs : List (List RegionTable))
      → HasRows p
      → All (All HasRows) runs
      → All (All HasRows) (onto_first p runs)
        × (rows_of (onto_first p runs) ≡ row_span p + rows_of runs)
  onto_first_lem p [] h all = (((h, tt), tt), omega arith)
  onto_first_lem p (run ∷ runs) h (one, all) = (((h, one), all), omega arith)

  page_runs_lem :
      (first : RegionTable) (ps : List RegionTable)
      → OnPage session first
      → All (OnPage session) ps
      → HasRows first
      → All HasRows ps
      → (runs : List (List RegionTable)) × (page_runs session first ps ≡ some runs)
        × All (All HasRows) runs
        × (rows_of runs ≡ row_span first + sum_of row_span ps)
  unfolding page_runs
  page_runs_lem first [] on placed h all = (((first ∷ []) ∷ []), refl, ((h, tt), tt), omega arith)
  page_runs_lem first (p ∷ ps) on (next_on, placed) h (one, all) =
      let (b, decided) = follows_lem first p on next_on in
      let (runs, found, rows, total) = page_runs_lem p ps next_on placed one all in
      rw decided (
        rw found (elim (Bool-cases b) [
          | inl next ↦
              let (rows', total') = onto_first_lem first runs h rows in
              rw next (onto_first first runs, refl, rows', omega (arith, total, total'))
          | inr gap ↦ rw gap ((first ∷ []) ∷ runs, refl, ((h, tt), rows), omega (arith, total))
        ]))

run_tables-IsTiled :
    (uuid4 : ℕ → ℕ) (index : ℕ) (table : Table) (runs : List (List RegionTable))
    → All (All HasRows) runs
    → All IsTiled (run_tables uuid4 index table runs)
      × (sum_of (λ (t : Table). t.row_count) (run_tables uuid4 index table runs) ≡ rows_of runs)
unfolding run_tables run_table
run_tables-IsTiled uuid4 index table [] h = (tt, refl)
run_tables-IsTiled uuid4 index table (run ∷ runs) (one, rest) =
    let (tiled, rows) = run_tables-IsTiled uuid4 (index + 1) table runs rest in
    (
      (
        run_table-IsTiled
            (if index == 0 then table else record table { id = uuid4 index; title = none }) run one,
        tiled,
      ),
      omega (arith, rows),
    )

split_runs-IsTiled :
    (uuid4 : ℕ → ℕ) (session : Session) (table : Table) (ps : List RegionTable)
    → All (OnPage session) ps
    → All HasRows ps
    → (ts : List Table) × (split_runs uuid4 session table ps ≡ some ts)
      × All IsTiled ts
      × (sum_of (λ (t : Table). t.row_count) ts ≡ sum_of row_span ps)
unfolding split_runs
split_runs-IsTiled uuid4 session table [] placed h = ([], refl, tt, refl)
split_runs-IsTiled uuid4 session table (p ∷ ps) (on, placed) (one, all) =
    let (runs, found, rows, total) = page_runs_lem session p ps on placed one all in
    let (tiled, sums) = run_tables-IsTiled uuid4 0 table runs rows in
    rw found (run_tables uuid4 0 table runs, refl, tiled, sums ∙ total)

-- Splitting a table at the pages it skips goes through when its parts cover its rows and are all on
-- numbered pages: the parts of each resulting table cover its rows, and no row is lost.
pub split_at_gaps-IsTiled :
    (uuid4 : ℕ → ℕ) (session : Session) (table : Table)
    → IsTiled table
    → All (OnPage session) table.parts
    → (ts : List Table) × (split_at_gaps uuid4 session table ≡ some ts)
      × All IsTiled ts
      × (sum_of (λ (t : Table). t.row_count) ts ≡ table.row_count)
unfolding split_at_gaps IsTiled
split_at_gaps-IsTiled uuid4 session table h placed =
    let (ts, done, tiled, rows) =
      split_runs-IsTiled uuid4 session table (ordered_parts table)
        (unfold ordered_parts in All-sort_by before (OnPage session) table.parts placed)
        (Tiles-HasRows table.id 0 0 (ordered_parts table) table.row_count h) in
    (
      ts,
      done,
      tiled,
      omega (arith, rows, Tiles-rows table.id 0 0 (ordered_parts table) table.row_count h),
    )
