-- ===== src/TableEdits/Model.antt =====
-- Merging a pair of tables, splitting one, and the pairs that a user may merge
-- (backend/app/services/table_edit.py), without the texts of refusals.
use yarrow.Prelude.{
  ℕ, Bool, false, not, Option, none, some, List, [], ◌∷◌, ◌++◌, ltb, leb, ◌==◌, if◌then◌else◌,
  or_else, length, keep, count_of,
}
use yarrow.Prelude.Sorting.{sort_by}
use yarrow.Status.{Status, is_completed}
use yarrow.Tables.{
  RegionTable, Table, Region, Session, ordered_parts, is_consecutive, region_of, page_of,
  merge_two_tables, split_table, delete_table, boundary, find_table, merge_consecutive_tables,
  split_consecutive_tables,
}

pub data MutationError : Type 0 where
  document_not_processed document_busy table_not_found : MutationError
  tables_not_consecutive table_not_stitched : MutationError

-- The outcome without its `detail` text.
pub record MutationOutcome : Type 0 where
  pub changed : Bool
  pub error : Option MutationError
  pub table_count_before : ℕ
  pub table_count_after : ℕ

pub record Document : Type 0 where
  pub status : Status
  pub updated_at : ℕ

-- The document that is edited, with the rows that the edits read and write.
pub record Db : Type 0 where
  pub document : Option Document
  pub session : Session

-- What `_Refused` carries, or a value.
pub data Checked (A : Type 0) : Type 0 where
  found : A → Checked A
  refused : MutationError → Checked A

infixl 5 ◌>>=◌
abbrev pub ◌>>=◌ : {A B : Type 0} → Checked A → (A → Checked B) → Checked B
refused e >>= f = refused e
found a >>= f = f a

unfoldable pub count_tables : ℕ → Session → ℕ
count_tables document_id session =
    count_of (λ (t : Table). t.document_id == document_id) session.tables

unfoldable pub lock_document : Option Document → Checked Document
lock_document none = refused document_not_processed
lock_document (some document) =
    if is_completed document.status then found document else refused document_not_processed

-- A table of another document is refused like a missing one.
abbrev pub in_document : ℕ → Option Table → Checked Table
in_document document_id none = refused table_not_found
in_document document_id (some table) =
    if table.document_id == document_id then found table else refused table_not_found

unfoldable pub resolve_table : Session → ℕ → ℕ → Checked Table
resolve_table session document_id table_id =
    in_document document_id (find_table table_id session.tables)

unfoldable pub parts_of : Table → Checked (RegionTable × RegionTable)
parts_of table = elim (boundary (ordered_parts table)) [
  | none ↦ refused tables_not_consecutive
  | some parts ↦ found parts
]

unfoldable pub merge_resolved : Session → Table → Table → Checked Session
merge_resolved session previous following = do
  previous_parts ← parts_of previous
  following_parts ← parts_of following
  if is_consecutive session previous_parts.1 following_parts.0
      then found (record session { tables = merge_two_tables previous following session.tables })
      else refused tables_not_consecutive

-- The operation of `_merge_pair`.
unfoldable pub merge_operation : ℕ → ℕ → ℕ → Session → Checked Session
merge_operation previous_id next_id document_id session = do
  previous ← resolve_table session document_id previous_id
  following ← resolve_table session document_id next_id
  merge_resolved session previous following

-- The operation of `_split_one`. A table of several parts is replaced by a table for each.
unfoldable pub split_operation : (ℕ → ℕ) → ℕ → ℕ → Session → Checked Session
split_operation uuid4 table_id document_id session = do
  table ← resolve_table session document_id table_id
  if leb (length (ordered_parts table)) 1
      then refused table_not_stitched
      else found (record session {
        tables = delete_table table.id session.tables ++ split_table uuid4 table;
      })

abbrev pub refusal : MutationError → Db → MutationOutcome × Db
refusal e db =
    (record { changed = false; error = some e; table_count_before = 0; table_count_after = 0 }, db)

unfoldable pub finished : ℕ → ℕ → Document → Db → Session → MutationOutcome × Db
finished now document_id document db session =
    let before = count_tables document_id db.session in
    let after = count_tables document_id session in
    (
      record {
        changed = not (before == after);
        error = none;
        table_count_before = before;
        table_count_after = after;
      },
      record {
        document =
            if before == after then some document else some (record document { updated_at = now });
        session = session;
      },
    )

abbrev pub conclude : ℕ → ℕ → Db → Checked (Document × Session) → MutationOutcome × Db
conclude now document_id db (refused e) = refusal e db
conclude now document_id db (found (document, session)) =
    finished now document_id document db session

-- `_run`: lock, gate, run, and count the tables on either side.
unfoldable pub run : ℕ → ℕ → (ℕ → Session → Checked Session) → Db → MutationOutcome × Db
run now document_id operation db = conclude now document_id db (do
  document ← lock_document db.document
  session ← operation document_id db.session
  found (document, session))

unfoldable pub merge_pair : ℕ → ℕ → ℕ → ℕ → Db → MutationOutcome × Db
merge_pair now document_id previous_id next_id =
    run now document_id (merge_operation previous_id next_id)

unfoldable pub split_one : (ℕ → ℕ) → ℕ → ℕ → ℕ → Db → MutationOutcome × Db
split_one uuid4 now document_id table_id = run now document_id (split_operation uuid4 table_id)

-- `_merge_all`: none is an attribute of a missing row, which raises, and is no refusal.
unfoldable pub merge_all : ℕ → ℕ → Db → Option (MutationOutcome × Db)
merge_all now document_id db = elim (lock_document db.document) [
  | refused e ↦ some (refusal e db)
  | found document ↦ elim (merge_consecutive_tables document_id db.session) [
    | none ↦ none
    | some session ↦ some (finished now document_id document db session)
  ]
]

-- `_split_all`
unfoldable pub split_all : (ℕ → ℕ) → ℕ → ℕ → Db → MutationOutcome × Db
split_all uuid4 now document_id =
    run now document_id
      (λ document_id session. found (split_consecutive_tables uuid4 document_id session).1)

-- A table with the place of its first part, and its outer parts.
pub record Entry : Type 0 where
  pub page_number : ℕ
  pub order : ℕ
  pub table : Table
  pub first : RegionTable
  pub last : RegionTable

abbrev pub entry_at : Session → Table → RegionTable × RegionTable → Option Region → Option Entry
entry_at session table ends none = none
entry_at session table ends (some region) = elim (page_of session region) [
  | none ↦ none
  | some page ↦ some (record {
    page_number = or_else page.page_number 0;
    order = or_else region.reading_order 0;
    table = table;
    first = ends.0;
    last = ends.1;
  })
]

-- Tables without parts or without a page are passed over.
unfoldable pub entry : Session → Table → Option Entry
entry session table = elim (boundary (ordered_parts table)) [
  | none ↦ none
  | some ends ↦ entry_at session table ends (region_of session ends.0)
]

abbrev pub cons_some : Option Entry → List Entry → List Entry
cons_some none entries = entries
cons_some (some e) entries = e ∷ entries

unfoldable pub entries : Session → List Table → List Entry
entries session [] = []
entries session (table ∷ tables) = cons_some (entry session table) (entries session tables)

abbrev pub entry_le : Entry → Entry → Bool
entry_le a b =
    if a.page_number == b.page_number then leb a.order b.order else ltb a.page_number b.page_number

-- The accepted pairs of neighbours.
unfoldable pub pairs : Session → Entry → List Entry → List (Entry × Entry)
pairs session previous [] = []
pairs session previous (following ∷ rest) =
    let further = pairs session following rest in
    if is_consecutive session previous.last following.first
    then (previous, following) ∷ further
    else further

abbrev pub all_pairs : Session → List Entry → List (Entry × Entry)
all_pairs session [] = []
all_pairs session (first ∷ rest) = pairs session first rest

-- `_merge_candidates`, each with its two tables.
unfoldable pub merge_candidates : Session → ℕ → List (Entry × Entry)
merge_candidates session document_id = all_pairs session (
    sort_by entry_le
      (entries session (keep (λ (t : Table). t.document_id == document_id) session.tables)))
