-- ===== src/Trash/Charged.antt =====
-- Each user is charged for the documents that they own, those in the trash too
-- (backend/app/services/document_deletion.py, User.storage_used_bytes).
use yarrow.Prelude.{
  ℕ, ◌+◌, ◌≡◌, refl, ap, sym, ◌∙◌, Bool, true, false, not, some, List, [], ◌∷◌, map, ◌==◌,
  if◌then◌else◌, or_else, keep, elem, sum_of, keep-All, found_here, found_later, All, All-imp,
  Bool-cases, inl, inr, arith, ==_iff,
}
use yarrow.Trash.Model.{Document, User, Db}
use yarrow.Trash.Rows.{
  stop_document, refund_quota, size_of, wipe_locked_document, delete_document_rows, delete_own_rows,
  delete_page_rows, delete_region_rows, delete_table_rows,
}
use yarrow.Trash.Ops.{find_document, mark_trashed, mark_restored}
use yarrow.Status.{is_active}

-- A primary key.
unfoldable pub Distinct : List Document → Type 0
Distinct [] = Unit
Distinct (d ∷ documents) =
    All (λ (e : Document). (e.id == d.id) ≡ false) documents × Distinct documents

unfoldable pub charge : ℕ → Document → ℕ
charge user_id document = if document.owner_id == user_id then size_of document else 0

unfoldable pub charged : ℕ → List Document → ℕ
charged user_id = sum_of (charge user_id)

unfoldable pub IsCharged : Db → Type 0
IsCharged db =
    Distinct db.documents
    × All (λ (u : User). or_else u.storage_used_bytes 0 ≡ charged u.id db.documents) db.users

-- The documents that a deletion of one leaves.
abbrev pub others : ℕ → List Document → List Document
others id = keep (λ (d : Document). not (elem d.id (id ∷ [])))

pub keep-Distinct :
    (p : Document → Bool) (documents : List Document)
    → Distinct documents
    → Distinct (keep p documents)
unfolding Distinct
keep-Distinct p [] h = tt
keep-Distinct p (d ∷ documents) (one, h) = elim (Bool-cases (p d)) [
  | inl stays ↦ rw stays (keep-All _ p documents one, keep-Distinct p documents h)
  | inr goes ↦ rw goes (keep-Distinct p documents h)
]

module _ (id : ℕ) where
  -- No other document has the id of one that was found.
  others_all :
      (documents : List Document)
      → All (λ (e : Document). (e.id == id) ≡ false) documents
      → others id documents ≡ documents
  others_all [] h = refl
  others_all (d ∷ documents) (differs, h) =
      rw differs (ap (λ rest. d ∷ rest) (others_all documents h))

  charged-others :
      (user_id : ℕ) (documents : List Document) (document : Document)
      → Distinct documents
      → find_document id documents ≡ some document
      → charged user_id documents ≡ charge user_id document + charged user_id (others id documents)
  unfolding Distinct charged
  charged-others user_id [] document h found = absurd cc
  charged-others user_id (d ∷ documents) document (differs, h) found =
      elim (Bool-cases (d.id == id)) [
        | inl same ↦
            let this : d ≡ document =
              found_here (λ (d : Document). d.id == id) d document documents same found in
            let alone : others id documents ≡ documents = others_all documents (
              All-imp (λ e h. ap (λ n. e.id == n) (sym ((==_iff d.id id).0 same)) ∙ h) documents
                differs) in
            rw same (ground (arith, alone, this))
        | inr other ↦
            let later =
              charged-others user_id documents document h
                (found_later (λ (d : Document). d.id == id) d document documents other found) in
            rw other (omega (arith, later))
      ]

charge-owner :
    (user_id : ℕ) (document : Document)
    → (user_id == document.owner_id) ≡ true
    → charge user_id document ≡ size_of document
unfolding charge
charge-owner user_id document h = ground arith

charge-other :
    (user_id : ℕ) (document : Document)
    → (user_id == document.owner_id) ≡ false
    → charge user_id document ≡ 0
unfolding charge
charge-other user_id document h = ground arith

-- One document's rows go, and its owner is charged for the others.
refunded :
    (document : Document) (documents : List Document) (users : List User)
    → Distinct documents
    → find_document document.id documents ≡ some document
    → All (λ (u : User). or_else u.storage_used_bytes 0 ≡ charged u.id documents) users
    → All
        (λ (u : User). or_else u.storage_used_bytes 0 ≡ charged u.id (others document.id documents))
        (refund_quota document.owner_id (size_of document) users)
unfolding refund_quota
refunded document documents [] distinct found h = tt
refunded document documents (u ∷ users) distinct found (one, h) =
    let split = charged-others document.id u.id documents document distinct found in
    let rest = refunded document documents users distinct found h in
    elim (Bool-cases (u.id == document.owner_id)) [
      | inl owner ↦ rw owner (omega (arith, one, split, charge-owner u.id document owner), rest)
      | inr other ↦ rw other (omega (arith, one, split, charge-other u.id document other), rest)
    ]

pub wipe_locked_document-IsCharged :
    (document : Document) (db : Db)
    → find_document document.id db.documents ≡ some document
    → IsCharged db
    → IsCharged (wipe_locked_document document db).1
unfolding IsCharged wipe_locked_document delete_document_rows delete_own_rows delete_page_rows
    delete_region_rows delete_table_rows
wipe_locked_document-IsCharged document db found h =
    (keep-Distinct _ db.documents h.0, refunded document db.documents db.users h.0 found h.1)

-- What a user is charged depends on the documents' ids, owners and sizes alone.
unfoldable pub Alike : (Document → Document) → Type 0
Alike f =
    (d : Document)
    → ((f d).id ≡ d.id)
      × ((f d).owner_id ≡ d.owner_id)
      × ((f d).file_size_bytes ≡ d.file_size_bytes)

module _ (f : Document → Document) (alike : Alike f) where
  map-apart :
      (n m : ℕ) (documents : List Document)
      → m ≡ n
      → All (λ (e : Document). (e.id == n) ≡ false) documents
      → All (λ (e : Document). (e.id == m) ≡ false) (map f documents)
  unfolding Alike
  map-apart n m [] same h = tt
  map-apart n m (d ∷ documents) same (one, h) =
      let kept : (f d).id ≡ d.id = (alike d).0 in
      (rw (same, kept) one, map-apart n m documents same h)

  map-Distinct : (documents : List Document) → Distinct documents → Distinct (map f documents)
  unfolding Distinct Alike
  map-Distinct [] h = tt
  map-Distinct (d ∷ documents) (differs, h) =
      (map-apart d.id (f d).id documents (alike d).0 differs, map-Distinct documents h)

  charged-map :
      (user_id : ℕ) (documents : List Document)
      → charged user_id (map f documents) ≡ charged user_id documents
  unfolding charged charge size_of Alike
  charged-map user_id [] = refl
  charged-map user_id (d ∷ documents) =
      let owner : (f d).owner_id ≡ d.owner_id = (alike d).1 in
      let size : (f d).file_size_bytes ≡ d.file_size_bytes = (alike d).2 in
      rw (owner, size) (ap (λ n. charge user_id d + n) (charged-map user_id documents))

pub replace-Alike :
    (f : Document → Document) (id : ℕ) → Alike f → Alike (λ d. if d.id == id then f d else d)
unfolding Alike
replace-Alike f id alike d = elim (Bool-cases (d.id == id)) [
  | inl same ↦ rw same (alike d)
  | inr other ↦ rw other (refl, refl, refl)
]

-- Changing documents so, with the users as they are.
pub map-IsCharged :
    (f : Document → Document)
    → Alike f
    → (db : Db) → IsCharged db
    → IsCharged (record db { documents = map f db.documents })
unfolding IsCharged
map-IsCharged f alike db h = (
  map-Distinct f alike db.documents h.0,
  All-imp (λ u same. same ∙ sym (charged-map f alike u.id db.documents)) db.users h.1,
)

pub mark_trashed-Alike : (now : ℕ) → Alike (mark_trashed now)
unfolding Alike
mark_trashed-Alike now d = (refl, refl, refl)

pub mark_restored-Alike : (now : ℕ) → Alike (mark_restored now)
unfolding Alike
mark_restored-Alike now d = (refl, refl, refl)

pub stop_document-Alike : Alike stop_document
unfolding Alike
stop_document-Alike d = elim (Bool-cases (is_active d.status)) [
  | inl active ↦ rw active (refl, refl, refl)
  | inr settled ↦ rw settled (refl, refl, refl)
]
