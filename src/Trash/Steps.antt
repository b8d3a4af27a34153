-- ===== src/Trash/Steps.antt =====
-- The operations of the trash as steps, in any order and with any locks held by others
-- (backend/app/services/document_deletion.py).
use yarrow.Prelude.{
  ℕ, ◌≡◌, sym, Bool, true, false, not, ◌&&◌, some, List, [], ◌∷◌, ◌==◌, if◌then◌else◌, is_none,
  find_first-passes, Bool-cases, Option-cases, inl, inr, subst, ==_iff,
}
use yarrow.Trash.Model.{Document, Db, is_trash_expired}
use yarrow.Trash.Rows.{stop_document, stop_unfinished_jobs}
use yarrow.Trash.Ops.{
  find_document, on_document, wiped, delete_document, mark_trashed, trash, soft_delete_document,
  mark_restored, restore, restore_document, wipe_expired, purge_if_expired, wipe_trashed,
  permanently_delete_trashed, each, purge_expired_documents, empty_user_trash, DeletionOutcome,
}
use yarrow.Trash.Charged.{
  IsCharged, wipe_locked_document-IsCharged, map-IsCharged, replace-Alike, mark_trashed-Alike,
  mark_restored-Alike, stop_document-Alike,
}

pub data Step (db : Db) : Db → Type 0 where
  deleting : (locked : ℕ → Bool) (id : ℕ) → Step db (delete_document locked id db).1
  trashing : (locked : ℕ → Bool) (now id : ℕ) → Step db (soft_delete_document locked now id db).1
  restoring :
      (locked : ℕ → Bool) (now id owner_id : ℕ)
      → Step db (restore_document locked now id owner_id db).1
  purging : (locked : ℕ → Bool) (now : ℕ) → Step db (purge_expired_documents locked now db).1
  wiping :
      (locked : ℕ → Bool) (owner_id id : ℕ)
      → Step db (permanently_delete_trashed locked owner_id id db).1
  emptying : (locked : ℕ → Bool) (owner_id : ℕ) → Step db (empty_user_trash locked owner_id db).1

pub data Reach (db : Db) : Db → Type 0 where
  here : Reach db db
  next : {mid last : Db} → Reach db mid → Step mid last → Reach db last

found_at :
    (id : ℕ) (db : Db) (d : Document)
    → find_document id db.documents ≡ some d
    → find_document d.id db.documents ≡ some d
found_at id db d found =
    let same : id ≡ d.id = sym (
      (==_iff d.id id).0 (find_first-passes (λ (d : Document). d.id == id) d db.documents found)) in
    subst (λ n. find_document n db.documents ≡ some d) same found

-- An operation on a locked row keeps what it keeps once the row is found.
on_document-IsCharged :
    {R : Type 0} (locked : ℕ → Bool) (id : ℕ) (late missing : R) (operation : Document → R × Db)
    (db : Db)
    → ((d : Document) → find_document d.id db.documents ≡ some d → IsCharged (operation d).1)
    → IsCharged db
    → IsCharged (on_document locked id (late, db) (missing, db) operation db).1
on_document-IsCharged locked id late missing operation db keeps h = elim (Bool-cases (locked id)) [
  | inl waits ↦ rw waits h
  | inr locks ↦ rw locks (elim (Option-cases (find_document id db.documents)) [
    | inl absent ↦ rw absent h
    | inr (d, found) ↦ rw found (keeps d (found_at id db d found))
  ])
]

either-IsCharged :
    {R : Type 0} (b : Bool) (x y : R × Db)
    → IsCharged x.1
    → IsCharged y.1
    → IsCharged (if b then x else y).1
either-IsCharged true x y hx hy = hx
either-IsCharged false x y hx hy = hy

delete_document-IsCharged :
    (locked : ℕ → Bool) (id : ℕ) (db : Db)
    → IsCharged db
    → IsCharged (delete_document locked id db).1
unfolding delete_document
delete_document-IsCharged locked id db h =
    on_document-IsCharged locked id _ _ (λ d. wiped d db) db
      (λ d found. wipe_locked_document-IsCharged d db found h) h

trash-IsCharged : (now : ℕ) (db : Db) (d : Document) → IsCharged db → IsCharged (trash now db d).1
unfolding trash stop_unfinished_jobs IsCharged
trash-IsCharged now db d h =
    let stopped = stop_unfinished_jobs now d db in
    either-IsCharged (is_none d.deleted_at) _ _
      (map-IsCharged _ (replace-Alike (mark_trashed now) d.id (mark_trashed-Alike now)) stopped.1
        (map-IsCharged _ (replace-Alike stop_document d.id stop_document-Alike) db h))
      h

soft_delete_document-IsCharged :
    (locked : ℕ → Bool) (now id : ℕ) (db : Db)
    → IsCharged db
    → IsCharged (soft_delete_document locked now id db).1
unfolding soft_delete_document
soft_delete_document-IsCharged locked now id db h =
    on_document-IsCharged locked id _ _ (trash now db) db (λ d found. trash-IsCharged now db d h) h

restore-IsCharged :
    (now owner_id : ℕ) (db : Db) (d : Document)
    → find_document d.id db.documents ≡ some d
    → IsCharged db
    → IsCharged (restore now owner_id db d).1
unfolding restore
restore-IsCharged now owner_id db d found h =
    either-IsCharged (not (d.owner_id == owner_id)) _ _ h (
      either-IsCharged (is_none d.deleted_at) _ _ h (
        either-IsCharged (is_trash_expired d.deleted_at now) _ _
          (wipe_locked_document-IsCharged d db found h)
          (map-IsCharged _ (replace-Alike (mark_restored now) d.id (mark_restored-Alike now)) db
            h)))

restore_document-IsCharged :
    (locked : ℕ → Bool) (now id owner_id : ℕ) (db : Db)
    → IsCharged db
    → IsCharged (restore_document locked now id owner_id db).1
unfolding restore_document
restore_document-IsCharged locked now id owner_id db h =
    on_document-IsCharged locked id _ _ (restore now owner_id db) db
      (λ d found. restore-IsCharged now owner_id db d found h) h

purge_if_expired-IsCharged :
    (locked : ℕ → Bool) (now id : ℕ) (db : Db)
    → IsCharged db
    → IsCharged (purge_if_expired locked now id db).1
unfolding purge_if_expired wipe_expired
purge_if_expired-IsCharged locked now id db h =
    on_document-IsCharged locked id _ _ (wipe_expired now db) db
      (λ d found.
        either-IsCharged (is_trash_expired d.deleted_at now) _ _
          (wipe_locked_document-IsCharged d db found h) h)
      h

permanently_delete_trashed-IsCharged :
    (locked : ℕ → Bool) (owner_id id : ℕ) (db : Db)
    → IsCharged db
    → IsCharged (permanently_delete_trashed locked owner_id id db).1
unfolding permanently_delete_trashed wipe_trashed
permanently_delete_trashed-IsCharged locked owner_id id db h =
    on_document-IsCharged locked id _ _ (wipe_trashed owner_id db) db
      (λ d found.
        either-IsCharged ((d.owner_id == owner_id) && not (is_none d.deleted_at)) _ _
          (wipe_locked_document-IsCharged d db found h) h)
      h

each-IsCharged :
    (operation : ℕ → Db → DeletionOutcome × Db)
    → ((id : ℕ) (db : Db) → IsCharged db → IsCharged (operation id db).1)
    → (ids : List ℕ) (db : Db) → IsCharged db
    → IsCharged (each operation ids db).1
unfolding each
each-IsCharged operation keeps [] db h = h
each-IsCharged operation keeps (id ∷ ids) db h =
    each-IsCharged operation keeps ids (operation id db).1 (keeps id db h)

Step-IsCharged : {db after : Db} → Step db after → IsCharged db → IsCharged after
unfolding purge_expired_documents empty_user_trash
Step-IsCharged {db} (deleting locked id) h = delete_document-IsCharged locked id db h
Step-IsCharged {db} (trashing locked now id) h = soft_delete_document-IsCharged locked now id db h
Step-IsCharged {db} (restoring locked now id owner_id) h =
    restore_document-IsCharged locked now id owner_id db h
Step-IsCharged {db} (purging locked now) h =
    each-IsCharged (purge_if_expired locked now) (purge_if_expired-IsCharged locked now) _ db h
Step-IsCharged {db} (wiping locked owner_id id) h =
    permanently_delete_trashed-IsCharged locked owner_id id db h
Step-IsCharged {db} (emptying locked owner_id) h =
    each-IsCharged (permanently_delete_trashed locked owner_id)
      (permanently_delete_trashed-IsCharged locked owner_id) _ db h

-- From a state in which document ids are distinct and every user's used space is the sum of the
-- sizes of the documents that they own, in the trash or not, every sequence of operations of the
-- trash, whatever locks others hold, leads to such a state again.
pub Reach-IsCharged : {db last : Db} → Reach db last → IsCharged db → IsCharged last
Reach-IsCharged here h = h
Reach-IsCharged (next before step) h = Step-IsCharged step (Reach-IsCharged before h)
