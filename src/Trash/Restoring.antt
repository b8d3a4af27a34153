-- ===== src/Trash/Restoring.antt =====
-- Moving a document to the trash and restoring it, composed
-- (backend/app/services/document_deletion.py).
use yarrow.Prelude.{
  ℕ, ◌+◌, ◌≡◌, ◌<◌, refl, ap, ◌∙◌, Bool, true, false, none, some, List, [], ◌∷◌, ◌==◌, leb,
  Bool-cases, inl, inr, ==_refl, arith, found_here, found_later,
}
use yarrow.Trash.Model.{Document, Db, is_trash_expired, retention}
use yarrow.Trash.Rows.{replace, stop_document, stop_unfinished_jobs, nothing}
use yarrow.Trash.Ops.{
  find_document, mark_trashed, trash, soft_delete_document, mark_restored, restore,
  restore_document,
}
use yarrow.Trash.Charged.{Alike, stop_document-Alike}

module _ (f : Document → Document) (alike : Alike f) (id : ℕ) where
  find_document-replace :
      (documents : List Document) (d : Document)
      → find_document id documents ≡ some d
      → find_document id (replace id f documents) ≡ some (f d)
  unfolding Alike
  find_document-replace [] d found = absurd cc
  find_document-replace (e ∷ documents) d found =
      let test = λ (d : Document). d.id == id in
      elim (Bool-cases (e.id == id)) [
        | inl same ↦
            let still : ((f e).id == id) ≡ true = ap (λ n. n == id) (alike e).0 ∙ same in
            rw (same, still) (ap (λ x. some (f x)) (found_here test e d documents same found))
        | inr other ↦
            rw (other, other)
              (find_document-replace documents d (found_later test e d documents other found))
      ]

  replace-replace :
      (g : Document → Document) (documents : List Document)
      → replace id g (replace id f documents) ≡ replace id (λ d. g (f d)) documents
  unfolding Alike
  replace-replace g [] = refl
  replace-replace g (d ∷ documents) =
      let rest = replace-replace g documents in
      elim (Bool-cases (d.id == id)) [
        | inl same ↦
            let still : ((f d).id == id) ≡ true = ap (λ n. n == id) (alike d).0 ∙ same in
            rw (same, still) (ap (λ ds. g (f d) ∷ ds) rest)
        | inr other ↦ rw (other, other) (ap (λ ds. d ∷ ds) rest)
      ]

-- What the way through the trash changes of a document.
abbrev trashed : ℕ → Document → Document
trashed now d = mark_trashed now (stop_document d)

abbrev pub brought_back : ℕ → ℕ → Document → Document
brought_back now later d = mark_restored later (trashed now d)

trashed-Alike : (now : ℕ) → Alike (trashed now)
unfolding Alike
trashed-Alike now d = stop_document-Alike d

restore_found :
    (locked : ℕ → Bool) (now id owner_id : ℕ) (db : Db) (d : Document)
    → locked id ≡ false
    → find_document id db.documents ≡ some d
    → restore_document locked now id owner_id db ≡ restore now owner_id db d
unfolding restore_document
restore_found locked now id owner_id db d unlocked found = rw (unlocked, found) refl

module _ (locked : ℕ → Bool) (now later : ℕ) (d : Document) (db : Db) where
  abbrev in_trash : Db
  in_trash = record (stop_unfinished_jobs now d db).1 {
    documents = replace d.id (trashed now) db.documents;
  }

  soft_delete_live :
      locked d.id ≡ false
      → find_document d.id db.documents ≡ some d
      → d.deleted_at ≡ none
      → (soft_delete_document locked now d.id db).1 ≡ in_trash
  unfolding soft_delete_document trash stop_unfinished_jobs
  soft_delete_live unlocked found live =
      rw (unlocked, found, live)
        (ap (λ ds. record (stop_unfinished_jobs now d db).1 { documents = ds })
          (replace-replace stop_document stop_document-Alike d.id (mark_trashed now) db.documents))

  restore_soon :
      later < now + retention
      → restore later d.owner_id in_trash (trashed now d) ≡ (
        record { error = none; document = some (brought_back now later d); leftovers = nothing },
        record in_trash { documents = replace d.id (mark_restored later) in_trash.documents },
      )
  unfolding restore is_trash_expired Alike
  restore_soon soon =
      let owner : (stop_document d).owner_id ≡ d.owner_id = (stop_document-Alike d).1 in
      let id : (stop_document d).id ≡ d.id = (stop_document-Alike d).0 in
      let early : leb (now + retention) later ≡ false = ground arith in
      rw (owner, ==_refl d.owner_id, early, id) refl

  pub there_and_back :
      locked d.id ≡ false
      → find_document d.id db.documents ≡ some d
      → d.deleted_at ≡ none
      → later < now + retention
      → restore_document locked later d.id d.owner_id (soft_delete_document locked now d.id db).1
        ≡ (
          record { error = none; document = some (brought_back now later d); leftovers = nothing },
          record (stop_unfinished_jobs now d db).1 {
            documents = replace d.id (brought_back now later) db.documents;
          },
        )
  there_and_back unlocked found live soon =
      let there : find_document d.id in_trash.documents ≡ some (trashed now d) =
        find_document-replace (trashed now) (trashed-Alike now) d.id db.documents d found in
      ap (restore_document locked later d.id d.owner_id) (soft_delete_live unlocked found live)
      ∙ restore_found locked later d.id d.owner_id in_trash (trashed now d) unlocked there
      ∙ restore_soon soon
      ∙ ap
          (λ ds. (
            record {
              error = none;
              document = some (brought_back now later d);
              leftovers = nothing;
            },
            record (stop_unfinished_jobs now d db).1 { documents = ds },
          ))
          (replace-replace (trashed now) (trashed-Alike now) d.id (mark_restored later)
            db.documents)
