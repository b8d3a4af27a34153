-- ===== src/Trash/Ops.antt =====
-- The operations of the trash (backend/app/services/document_deletion.py), without the texts of
-- their errors. `busy` tells whose row lock does not come in time; a request reads its clock once.
use yarrow.Prelude.{
  ℕ, Bool, not, ◌&&◌, Option, none, some, List, [], ◌∷◌, ◌++◌, map, ◌==◌, if◌then◌else◌, is_none,
  keep, find_first,
}
use yarrow.Trash.Model.{Document, Db, is_trash_expired}
use yarrow.Trash.Rows.{Leftovers, nothing, wipe_locked_document, stop_unfinished_jobs, replace}

pub data DeletionError : Type 0 where
  busy not_found : DeletionError

pub record DeletionOutcome : Type 0 where
  pub error : Option DeletionError
  pub leftovers : Leftovers

abbrev pub done : Leftovers → DeletionOutcome
done leftovers = record { error = none; leftovers = leftovers }

abbrev pub failed : DeletionError → DeletionOutcome
failed e = record { error = some e; leftovers = nothing }

pub data RestoreError : Type 0 where
  restore_not_found not_trashed expired restore_busy : RestoreError

pub record RestoreOutcome : Type 0 where
  pub error : Option RestoreError
  pub document : Option Document
  pub leftovers : Leftovers

abbrev pub find_document : ℕ → List Document → Option Document
find_document id = find_first (λ (d : Document). d.id == id)

abbrev pub wiped : Document → Db → DeletionOutcome × Db
wiped document db =
    let (leftovers, after) = wipe_locked_document document db in (done leftovers, after)

abbrev pub on_document :
    {R : Type 0} → (ℕ → Bool) → ℕ → R × Db → R × Db → (Document → R × Db) → Db → R × Db
on_document locked document_id timed_out missing operation db =
    if locked document_id then timed_out else elim (find_document document_id db.documents) [
      | none ↦ missing
      | some document ↦ operation document
    ]

unfoldable pub delete_document : (ℕ → Bool) → ℕ → Db → DeletionOutcome × Db
delete_document locked document_id db =
    on_document locked document_id (failed busy, db) (done nothing, db)
      (λ document. wiped document db) db

abbrev pub mark_trashed : ℕ → Document → Document
mark_trashed now document = record document {
  deleted_at = some now;
  updated_at = now;
  client_upload_id = none;
}

unfoldable pub trash : ℕ → Db → Document → DeletionOutcome × Db
trash now db document =
    if is_none document.deleted_at
    then (let (task_ids, stopped) = stop_unfinished_jobs now document db in
        (
          done (record { storage_keys = []; task_ids = task_ids }),
          record stopped { documents = replace document.id (mark_trashed now) stopped.documents },
        ))
    else (done nothing, db)

unfoldable pub soft_delete_document : (ℕ → Bool) → ℕ → ℕ → Db → DeletionOutcome × Db
soft_delete_document locked now document_id db =
    on_document locked document_id (failed busy, db) (done nothing, db) (trash now db) db

abbrev pub refuse_restore : RestoreError → RestoreOutcome
refuse_restore e = record { error = some e; document = none; leftovers = nothing }

abbrev pub mark_restored : ℕ → Document → Document
mark_restored now document = record document { deleted_at = none; updated_at = now }

unfoldable pub restore : ℕ → ℕ → Db → Document → RestoreOutcome × Db
restore now owner_id db document =
    if not (document.owner_id == owner_id)
    then (refuse_restore restore_not_found, db)
    else if is_none document.deleted_at
    then (refuse_restore not_trashed, db)
    else if is_trash_expired document.deleted_at now
    then (let (leftovers, after) = wipe_locked_document document db in
        (record { error = some expired; document = none; leftovers = leftovers }, after))
    else (
      record { error = none; document = some (mark_restored now document); leftovers = nothing },
      record db { documents = replace document.id (mark_restored now) db.documents },
    )

unfoldable pub restore_document : (ℕ → Bool) → ℕ → ℕ → ℕ → Db → RestoreOutcome × Db
restore_document locked now document_id owner_id db =
    on_document locked document_id (refuse_restore restore_busy, db)
      (refuse_restore restore_not_found, db) (restore now owner_id db) db

-- Only if it is still expired when its row is locked.
unfoldable pub wipe_expired : ℕ → Db → Document → DeletionOutcome × Db
wipe_expired now db document =
    if is_trash_expired document.deleted_at now then wiped document db else (done nothing, db)

unfoldable pub purge_if_expired : (ℕ → Bool) → ℕ → ℕ → Db → DeletionOutcome × Db
purge_if_expired locked now document_id db =
    on_document locked document_id (failed busy, db) (done nothing, db) (wipe_expired now db) db

unfoldable pub wipe_trashed : ℕ → Db → Document → DeletionOutcome × Db
wipe_trashed owner_id db document =
    if (document.owner_id == owner_id) && not (is_none document.deleted_at)
    then wiped document db
    else (failed not_found, db)

unfoldable pub permanently_delete_trashed : (ℕ → Bool) → ℕ → ℕ → Db → DeletionOutcome × Db
permanently_delete_trashed locked owner_id document_id db =
    on_document locked document_id (failed busy, db) (failed not_found, db)
      (wipe_trashed owner_id db) db

abbrev pub both : Leftovers → Leftovers → Leftovers
both a b = record {
  storage_keys = a.storage_keys ++ b.storage_keys;
  task_ids = a.task_ids ++ b.task_ids;
}

-- One operation on each document in turn; what those that went through leave is collected.
unfoldable pub each : (ℕ → Db → DeletionOutcome × Db) → List ℕ → Db → Leftovers × Db
each operation [] db = (nothing, db)
each operation (id ∷ ids) db =
    let (outcome, after) = operation id db in
    let (rest, last) = each operation ids after in
    (if is_none outcome.error then both outcome.leftovers rest else rest, last)

abbrev pub ids_of : List Document → List ℕ
ids_of = map (λ (d : Document). d.id)

unfoldable pub purge_expired_documents : (ℕ → Bool) → ℕ → Db → Leftovers × Db
purge_expired_documents locked now db =
    each (purge_if_expired locked now)
      (ids_of (keep (λ (d : Document). is_trash_expired d.deleted_at now) db.documents)) db

unfoldable pub empty_user_trash : (ℕ → Bool) → ℕ → Db → Leftovers × Db
empty_user_trash locked owner_id db =
    each (permanently_delete_trashed locked owner_id)
      (ids_of (
        keep (λ (d : Document). (d.owner_id == owner_id) && not (is_none d.deleted_at))
          db.documents))
      db
