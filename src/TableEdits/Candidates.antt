-- ===== src/TableEdits/Candidates.antt =====
-- The pairs that a user may merge do merge (backend/app/services/table_edit.py).
use yarrow.Prelude.{
  ℕ, ◌≡◌, refl, true, Option, none, some, List, [], ◌∷◌, ◌==◌, keep, Bool-cases, Option-cases, inl,
  inr, All, All-imp, subst, or_else,
}
use yarrow.Prelude.Sorting.{All-sort_by}
use yarrow.Status.{is_completed}
use yarrow.Tables.{
  boundary, find_table, RegionTable, Table, Region, Session, ordered_parts, is_consecutive,
  region_of, page_of, merge_two_tables,
}
use yarrow.TableEdits.Model.{
  Document, Db, Entry, found, lock_document, resolve_table, parts_of, merge_resolved,
  merge_operation, run, finished, merge_pair, entry, entry_at, cons_some, entries, entry_le, pairs,
  all_pairs, merge_candidates,
}

module _ (session : Session) (document_id : ℕ) where
  -- A table of the document that its id finds.
  abbrev pub IsKeyed : Table → Type 0
  IsKeyed t = find_table t.id session.tables ≡ some t

  -- An entry of a table of the document, with the ends of its parts.
  record IsEntry (e : Entry) : Type 0 where
    pub keyed : find_table e.table.id session.tables ≡ some e.table
    pub mine : (e.table.document_id == document_id) ≡ true
    pub ends : boundary (ordered_parts e.table) ≡ some (e.first, e.last)

  keep-All :
      (ts : List Table)
      → All IsKeyed ts
      → All
          (λ t. IsKeyed t × ((t.document_id == document_id) ≡ true))
          (keep (λ t. t.document_id == document_id) ts)
  keep-All [] h = tt
  keep-All (t ∷ ts) (one, rest) =
      let more = keep-All ts rest in
      elim (Bool-cases (t.document_id == document_id)) [
        | inl mine ↦ rw mine ((one, mine), more)
        | inr other ↦ rw other more
      ]

  cons_some-All :
      (o : Option Entry) (es : List Entry)
      → ((e : Entry) → o ≡ some e → IsEntry e)
      → All IsEntry es
      → All IsEntry (cons_some o es)
  cons_some-All none es h all = all
  cons_some-All (some e) es h all = (h e refl, all)

  entry_at-IsEntry :
      (t : Table) (ends : RegionTable × RegionTable) (region : Option Region) (e : Entry)
      → IsKeyed t
      → (t.document_id == document_id) ≡ true
      → boundary (ordered_parts t) ≡ some ends
      → entry_at session t ends region ≡ some e
      → IsEntry e
  entry_at-IsEntry t ends none e keyed mine bounds = λ h. cc h
  entry_at-IsEntry t ends (some region) e keyed mine bounds =
      elim (Option-cases (page_of session region)) [
        | inl no_page ↦ rw (no_page, entry_at) (λ h. cc h)
        | inr (page, there) ↦
            rw (there, entry_at)
              (λ h.
                let whole : record {
                  page_number = or_else page.page_number 0;
                  order = or_else region.reading_order 0;
                  table = t;
                  first = ends.0;
                  last = ends.1;
                }
                    ≡ e =
                  cc h in
                subst IsEntry whole (record { keyed = keyed; mine = mine; ends = bounds }))
      ]

  entry-IsEntry :
      (t : Table) (e : Entry)
      → IsKeyed t
      → (t.document_id == document_id) ≡ true
      → entry session t ≡ some e
      → IsEntry e
  unfolding entry
  entry-IsEntry t e keyed mine = elim (Option-cases (boundary (ordered_parts t))) [
    | inl no_parts ↦ rw (no_parts, entry) (λ h. cc h)
    | inr (ends, bounds) ↦
        rw (bounds, entry)
          (λ h. entry_at-IsEntry t ends (region_of session ends.0) e keyed mine bounds h)
  ]

  entries-All :
      (ts : List Table)
      → All (λ t. IsKeyed t × ((t.document_id == document_id) ≡ true)) ts
      → All IsEntry (entries session ts)
  unfolding entries
  entries-All [] h = tt
  entries-All (t ∷ ts) ((keyed, mine), rest) =
      cons_some-All (entry session t) (entries session ts)
        (λ e here. entry-IsEntry t e keyed mine here) (entries-All ts rest)

  -- A pair of entries whose neighbouring parts are consecutive.
  abbrev IsPair : Entry × Entry → Type 0
  IsPair (a, b) = IsEntry a × IsEntry b × (is_consecutive session a.last b.first ≡ true)

  pairs-All :
      (previous : Entry) (es : List Entry)
      → IsEntry previous
      → All IsEntry es
      → All IsPair (pairs session previous es)
  unfolding pairs
  pairs-All previous [] h all = tt
  pairs-All previous (next ∷ es) h (one, rest) =
      let more = pairs-All next es one rest in
      elim (Bool-cases (is_consecutive session previous.last next.first)) [
        | inl accepted ↦ rw accepted ((h, one, accepted), more)
        | inr refused ↦ rw refused more
      ]

  all_pairs-All : (es : List Entry) → All IsEntry es → All IsPair (all_pairs session es)
  all_pairs-All [] h = tt
  all_pairs-All (e ∷ es) (one, rest) = pairs-All e es one rest

  merged_session : Entry × Entry → Session
  merged_session (a, b) = record session {
    tables = merge_two_tables a.table b.table session.tables;
  }

  parts_found :
      (t : Table) (ends : RegionTable × RegionTable)
      → boundary (ordered_parts t) ≡ some ends
      → parts_of t ≡ found ends
  unfolding parts_of
  parts_found t ends bounds = rw (bounds, parts_of) refl

  pair-merges :
      (pair : Entry × Entry)
      → IsPair pair
      → merge_operation pair.0.table.id pair.1.table.id document_id session
        ≡ found (merged_session pair)
  unfolding merge_operation resolve_table merge_resolved merged_session
  pair-merges (a, b) (h, k, accepted) =
      rw
        (
          h.keyed,
          h.mine,
          k.keyed,
          k.mine,
          parts_found a.table (a.first, a.last) h.ends,
          parts_found b.table (b.first, b.last) k.ends,
          accepted,
        )
        refl

candidate-merges :
    (now document_id : ℕ) (document : Document) (db : Db)
    → db.document ≡ some document
    → is_completed document.status ≡ true
    → (pair : Entry × Entry) → IsPair db.session document_id pair
    → ((merge_pair now document_id pair.0.table.id pair.1.table.id db).0.error ≡ none)
      × ((merge_pair now document_id pair.0.table.id pair.1.table.id db).1.session.tables
          ≡ merge_two_tables pair.0.table pair.1.table db.session.tables)
unfolding merge_pair run finished lock_document merged_session
candidate-merges now document_id document db there done pair h =
    rw (there, done, pair-merges db.session document_id pair h) (refl, refl)

-- On a completed document whose tables are found by their ids, every pair that is offered for
-- merging does merge: the request is not refused, and leaves the two tables merged.
pub merge_candidates-merge :
    (now document_id : ℕ) (document : Document) (db : Db)
    → db.document ≡ some document
    → is_completed document.status ≡ true
    → All (IsKeyed db.session document_id) db.session.tables
    → All
        (λ pair.
          ((merge_pair now document_id pair.0.table.id pair.1.table.id db).0.error ≡ none)
          × ((merge_pair now document_id pair.0.table.id pair.1.table.id db).1.session.tables
              ≡ merge_two_tables pair.0.table pair.1.table db.session.tables))
        (merge_candidates db.session document_id)
unfolding merge_candidates
merge_candidates-merge now document_id document db there done keyed =
    All-imp (candidate-merges now document_id document db there done)
      (merge_candidates db.session document_id)
      (all_pairs-All db.session document_id _ (
        All-sort_by entry_le (IsEntry db.session document_id) _ (
          entries-All db.session document_id _
            (keep-All db.session document_id db.session.tables keyed))))
