-- ===== src/Trash/Purge.antt =====
-- The purge of the trash removes what is past its retention (backend/app/services/document_deletion.py).
use yarrow.Prelude.{
  ℕ, ◌≡◌, refl, ap, sym, ◌∙◌, Bool, true, false, not, ◌&&◌, ◌||◌, none, some, List, [], ◌∷◌, ◌==◌,
  keep, elem, All, All-imp, everywhere, keep_all, keep_same, keep-keep, Bool-cases, Option-cases,
  inl, inr, subst, ==_iff, arith, found_here, find_first-passes, found_later,
}
use yarrow.Trash.Model.{Document, Db, is_trash_expired}
use yarrow.Trash.Rows.{
  wipe_locked_document, delete_document_rows, delete_own_rows, delete_page_rows, delete_region_rows,
  delete_table_rows,
}
use yarrow.Trash.Ops.{
  find_document, wipe_expired, ids_of, purge_if_expired, each, purge_expired_documents,
}
use yarrow.Trash.Charged.{Distinct, keep-Distinct}
use yarrow.Trash.Links.{listed}

either_way : (a u e : Bool) → (not (u && e) && not (a && u && e)) ≡ not (u && e)
either_way a false e = elim (Bool-cases a) [ inl h ↦ rw h refl | inr h ↦ rw h refl ]
either_way false true e = ground arith
either_way true true false = refl
either_way true true true = refl

unlocked_late : (l : Bool) → not (not l && true) ≡ (l || false)
unlocked_late false = refl
unlocked_late true = refl

unlocked_early : (a l : Bool) → not (a && not l && false) ≡ (l || true)
unlocked_early a false = elim (Bool-cases a) [ inl h ↦ rw h refl | inr h ↦ rw h refl ]
unlocked_early a true = elim (Bool-cases a) [ inl h ↦ rw h refl | inr h ↦ rw h refl ]

module _ (locked : ℕ → Bool) (now : ℕ) where
  expired : Document → Bool
  expired d = is_trash_expired d.deleted_at now

  -- A purge of some ids removes these.
  abbrev goes : (ℕ → Bool) → Document → Bool
  goes chosen d = chosen d.id && not (locked d.id) && is_trash_expired d.deleted_at now

  -- The row with this id is the one that is found.
  same_row :
      (id : ℕ) (d : Document) (documents : List Document)
      → Distinct documents
      → find_document id documents ≡ some d
      → All (λ (e : Document). (e.id == id) ≡ true → e ≡ d) documents
  unfolding Distinct
  same_row id d [] h found = tt
  same_row id d (e ∷ documents) (differs, h) found = elim (Bool-cases (e.id == id)) [
    | inl same ↦ (
      (λ _. found_here (λ (d : Document). d.id == id) e d documents same found),
      All-imp {Q = λ (x : Document). (x.id == id) ≡ true → x ≡ d}
          (λ (x : Document) apart equal. absurd (ground (arith, apart, same, equal))) documents
          differs,
    )
    | inr other ↦ (
      (λ equal. absurd (cc (other, equal))),
      same_row id d documents h
          (found_later (λ (d : Document). d.id == id) e d documents other found),
    )
  ]

  no_row :
      (id : ℕ) (documents : List Document)
      → find_document id documents ≡ none
      → All (λ (e : Document). (e.id == id) ≡ false) documents
  no_row id [] h = tt
  no_row id (e ∷ documents) h = elim (Bool-cases (e.id == id)) [
    | inl same ↦ absurd (ground (arith, same, h))
    | inr other ↦
        let later : find_document id (e ∷ documents) ≡ find_document id documents = rw other refl in
        (other, no_row id documents (sym later ∙ h))
  ]

  kept_row :
      (id : ℕ) (e : Document)
      → ((e.id == id) ≡ true → (not (locked id) && expired e) ≡ false)
      → not (goes (λ n. n == id) e) ≡ true
  unfolding expired
  kept_row id e spared = elim (Bool-cases (e.id == id)) [
    | inr other ↦ rw other refl
    | inl same ↦
        let here : locked e.id ≡ locked id = ap locked ((==_iff e.id id).0 same) in
        rw same (rw here (ap not (spared same)))
  ]

  wiped_row :
      (id : ℕ) (d e : Document)
      → d.id ≡ id
      → locked id ≡ false
      → is_trash_expired d.deleted_at now ≡ true
      → ((e.id == id) ≡ true → e ≡ d)
      → not (elem e.id (d.id ∷ [])) ≡ not (goes (λ n. n == id) e)
  unfolding expired
  wiped_row id d e same_id locks late this = elim (Bool-cases (e.id == id)) [
    | inr other ↦ rw (same_id, other) refl
    | inl same ↦
        let unlocked : locked e.id ≡ false = ap locked ((==_iff e.id id).0 same) ∙ locks in
        let gone : is_trash_expired e.deleted_at now ≡ true = ap expired (this same) ∙ late in
        rw (same_id, same, unlocked, gone) refl
  ]

  wiped_one :
      (id : ℕ) (d : Document) (db : Db)
      → locked id ≡ false
      → find_document id db.documents ≡ some d
      → is_trash_expired d.deleted_at now ≡ true
      → Distinct db.documents
      → (wipe_locked_document d db).1.documents
        ≡ keep (λ e. not (goes (λ n. n == id) e)) db.documents
  unfolding wipe_locked_document delete_document_rows delete_own_rows delete_page_rows
      delete_region_rows delete_table_rows
  wiped_one id d db locks found late distinct =
      let same_id =
        (==_iff d.id id).0
          (find_first-passes (λ (d : Document). d.id == id) d db.documents found) in
      keep_same _ _ db.documents (
        All-imp (λ e this. wiped_row id d e same_id locks late this) db.documents
          (same_row id d db.documents distinct found))

  purge_one :
      (id : ℕ) (db : Db)
      → Distinct db.documents
      → (purge_if_expired locked now id db).1.documents
        ≡ keep (λ d. not (goes (λ n. n == id) d)) db.documents
  unfolding purge_if_expired wipe_expired expired
  purge_one id db distinct = elim (Bool-cases (locked id)) [
    | inl waits ↦ rw waits (
        sym (
          keep_all _ db.documents
            (everywhere (λ e. kept_row id e (λ _. rw waits refl)) db.documents)))
    | inr locks ↦ rw locks (elim (Option-cases (find_document id db.documents)) [
      | inl absent ↦ rw absent (
          sym (
            keep_all _ db.documents (
              All-imp (λ e other. kept_row id e (λ same. absurd (cc (same, other)))) db.documents
                (no_row id db.documents absent))))
      | inr (d, found) ↦ rw found (elim (Bool-cases (is_trash_expired d.deleted_at now)) [
        | inl late ↦ rw late (wiped_one id d db locks found late distinct)
        | inr early ↦ rw early (
            sym (
              keep_all _ db.documents (
                All-imp
                  (λ e this. kept_row id e (λ same. rw locks (ap expired (this same) ∙ early)))
                  db.documents (same_row id d db.documents distinct found))))
      ])
    ])
  ]

  split_row :
      (id : ℕ) (ids : List ℕ) (d : Document)
      → (not (goes (λ n. n == id) d) && not (goes (λ n. elem n ids) d))
        ≡ not (goes (λ n. elem n (id ∷ ids)) d)
  split_row id ids d = elim (Bool-cases (d.id == id)) [
    | inl same ↦
        rw same (either_way (elem d.id ids) (not (locked d.id)) (is_trash_expired d.deleted_at now))
    | inr other ↦ rw other refl
  ]

  selected_row :
      (ids : List ℕ) (d : Document)
      → (expired d ≡ true → elem d.id ids ≡ true)
      → not (goes (λ n. elem n ids) d) ≡ (locked d.id || not (is_trash_expired d.deleted_at now))
  unfolding expired
  selected_row ids d selected = elim (Bool-cases (is_trash_expired d.deleted_at now)) [
    | inl late ↦ rw (late, selected late) (unlocked_late (locked d.id))
    | inr early ↦ rw early (unlocked_early (elem d.id ids) (locked d.id))
  ]

  purge_each :
      (ids : List ℕ) (db : Db)
      → Distinct db.documents
      → (each (purge_if_expired locked now) ids db).1.documents
        ≡ keep (λ d. not (goes (λ n. elem n ids) d)) db.documents
  unfolding each
  purge_each [] db distinct = sym (keep_all _ db.documents (everywhere (λ d. refl) db.documents))
  purge_each (id ∷ ids) db distinct =
      let after = (purge_if_expired locked now id db).1 in
      let one = purge_one id db distinct in
      let rest =
        purge_each ids after (subst Distinct (sym one) (keep-Distinct _ db.documents distinct)) in
      rest
      ∙ ap (keep _) one
      ∙ keep-keep _ _ db.documents
      ∙ keep_same _ _ db.documents (everywhere (λ d. split_row id ids d) db.documents)

  -- With distinct ids, a purge leaves the documents that are not past their retention, in their
  -- order, those whose rows others hold locked, and no other: it removes all the rest.
  pub purge_expired_documents_lem :
      (db : Db)
      → Distinct db.documents
      → (purge_expired_documents locked now db).1.documents
        ≡ keep
            (λ (d : Document). locked d.id || not (is_trash_expired d.deleted_at now))
            db.documents
  unfolding purge_expired_documents expired
  purge_expired_documents_lem db distinct =
      let ids = ids_of (keep expired db.documents) in
      purge_each ids db distinct
      ∙ keep_same _ _ db.documents (
          All-imp (λ d selected. selected_row ids d selected) db.documents
            (listed (λ (d : Document). d.id) expired db.documents))
