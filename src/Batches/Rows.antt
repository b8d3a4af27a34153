-- ===== src/Batches/Rows.antt =====
-- Rows of batches with an id, through changes of the rows
-- (packages/yarrow-db/src/yarrow_db/models/batch.py).
use yarrow.Prelude.{
  ℕ, ◌≡◌, refl, ap, sym, ◌∙◌, Bool, true, false, List, [], ◌∷◌, ◌++◌, map, ◌==◌, if◌then◌else◌,
  keep, any, elem, All, All-map, All-imp, arith, Bool-cases, inl, inr, ==_iff,
}
use yarrow.Prelude.Sorting.{insert_by, sort_by}
use yarrow.Batches.Model.{Batch}

-- There is a row with this id, and every such row passes a test.
abbrev pub Surely : (Batch → Bool) → ℕ → List Batch → Type 0
Surely test id batches =
    (any (λ (b : Batch). b.id == id) batches ≡ true)
    × All (λ (b : Batch). (b.id == id) ≡ true → test b ≡ true) batches

-- A change of a batch that keeps its id, and turns what one test finds into what another does.
unfoldable pub Turns : (Batch → Bool) → (Batch → Bool) → ℕ → (Batch → Batch) → Type 0
Turns p q id f =
    (b : Batch) → ((f b).id ≡ b.id) × ((b.id == id) ≡ true → p b ≡ true → q (f b) ≡ true)

unfoldable pub Keeps : (Batch → Bool) → ℕ → (Batch → Batch) → Type 0
unfolding Turns
Keeps test = Turns test test

-- Ids are a primary key.
unfoldable pub Distinct : List Batch → Type 0
Distinct [] = Unit
Distinct (b ∷ batches) = All (λ (c : Batch). (c.id == b.id) ≡ false) batches × Distinct batches

module _ (p q : Batch → Bool) (id : ℕ) where
  any-map :
      (f : Batch → Batch) (batches : List Batch)
      → Turns p q id f
      → any (λ (b : Batch). b.id == id) (map f batches) ≡ any (λ (b : Batch). b.id == id) batches
  unfolding Turns
  any-map f [] turns = refl
  any-map f (b ∷ batches) turns =
      let same = ap (λ n. n == id) (turns b).0 in cc (same, any-map f batches turns)

  pub map-Turns :
      (f : Batch → Batch) (batches : List Batch)
      → Turns p q id f
      → Surely p id batches
      → Surely q id (map f batches)
  unfolding Turns
  map-Turns f batches turns h = (
    any-map f batches turns ∙ h.0,
    All-map _ f batches (
        All-imp
          (λ b one same.
            let was = ap (λ n. n == id) (sym (turns b).0) ∙ same in (turns b).1 was (one was))
          batches h.1),
  )

  -- A change of exactly the rows that pass.
  pub if-Turns :
      (f : Batch → Batch)
      → ((b : Batch) → (b.id == id) ≡ true → p b ≡ true → q (f b) ≡ true)
      → ((b : Batch) → (f b).id ≡ b.id)
      → Turns p q id (λ b. if p b then f b else b)
  unfolding Turns
  if-Turns f turns same b = elim (Bool-cases (p b)) [
    | inl chosen ↦ rw chosen (same b, λ is_id _. turns b is_id chosen)
    | inr left ↦ rw left (refl, λ _ h. absurd (cc h))
  ]

module _ (test : Batch → Bool) (id : ℕ) where
  pub map-Surely :
      (f : Batch → Batch) (batches : List Batch)
      → Keeps test id f
      → Surely test id batches
      → Surely test id (map f batches)
  unfolding Keeps
  map-Surely = map-Turns test test id

  pub if-Keeps :
      (p : Batch → Bool) (f : Batch → Batch)
      → ((b : Batch)
          → p b ≡ true
          → ((f b).id ≡ b.id) × ((b.id == id) ≡ true → test b ≡ true → test (f b) ≡ true))
      → Keeps test id (λ b. if p b then f b else b)
  unfolding Keeps Turns
  if-Keeps p f keeps b = elim (Bool-cases (p b)) [
    | inl chosen ↦ rw chosen (keeps b chosen)
    | inr left ↦ rw left (refl, λ same h. h)
  ]

  append_rows :
      (b : Batch) (batches : List Batch)
      → (b.id == id) ≡ false
      → All (λ (b : Batch). (b.id == id) ≡ true → test b ≡ true) batches
      → All (λ (b : Batch). (b.id == id) ≡ true → test b ≡ true) (batches ++ b ∷ [])
  append_rows b [] other h = ((λ same. absurd (cc (same, other))), tt)
  append_rows b (c ∷ batches) other (one, h) = (one, append_rows b batches other h)

  pub append-Surely :
      (b : Batch) (batches : List Batch)
      → (b.id == id) ≡ false
      → Surely test id batches
      → Surely test id (batches ++ b ∷ [])
  append-Surely b [] other h = absurd cc
  append-Surely b (c ∷ batches) other h = elim (Bool-cases (c.id == id)) [
    | inl same ↦ (rw same refl, (h.1.0, append_rows b batches other h.1.1))
    | inr differs ↦
        let (there, rest) = append-Surely b batches other (rw differs at h.0, h.1.1) in
        (rw differs there, (h.1.0, rest))
  ]

  -- When no row that passes has the id, it is not among them.
  pub not-elem :
      (batches : List Batch)
      → All (λ (b : Batch). (b.id == id) ≡ true → test b ≡ false) batches
      → elem id (map (λ (b : Batch). b.id) (keep test batches)) ≡ false
  not-elem [] h = refl
  not-elem (b ∷ batches) (one, h) = elim (Bool-cases (b.id == id)) [
    | inl same ↦ let fails = one same in rw fails (not-elem batches h)
    | inr other ↦ ground (arith, not-elem batches h, other)
  ]

  -- An id is among the ids of the rows that pass.
  pub Surely-elem :
      (batches : List Batch)
      → Surely test id batches
      → elem id (map (λ (b : Batch). b.id) (keep test batches)) ≡ true
  Surely-elem [] h = absurd cc
  Surely-elem (b ∷ batches) h = elim (Bool-cases (b.id == id)) [
    | inl same ↦ let passes = h.1.0 same in rw passes (ground (arith, same))
    | inr other ↦
        let there : any (λ (b : Batch). b.id == id) batches ≡ true = rw other at h.0 in
        ground (arith, Surely-elem batches (there, h.1.1), other)
  ]

  pub elem-Surely :
      (batches : List Batch)
      → Distinct batches
      → elem id (map (λ (b : Batch). b.id) (keep test batches)) ≡ true
      → Surely test id batches
  unfolding Distinct
  elem-Surely [] distinct h = absurd cc
  elem-Surely (b ∷ batches) (differs, distinct) h = elim (Bool-cases (b.id == id)) [
    | inr other ↦
        let (there, rest) = elem-Surely batches distinct (ground (arith, h, other)) in
        (rw other there, ((λ equal. absurd (cc (other, equal))), rest))
    | inl same ↦
        let apart =
          All-imp {Q = λ (c : Batch). (c.id == id) ≡ false}
            (λ (c : Batch) h. ap (λ n. c.id == n) (sym ((==_iff b.id id).0 same)) ∙ h) batches
            differs in
        let alone =
          All-imp {Q = λ (c : Batch). (c.id == id) ≡ true → test c ≡ true}
            (λ (c : Batch) h equal. absurd (cc (h, equal))) batches apart in
        elim (Bool-cases (test b)) [
          | inl passes ↦ (rw same refl, ((λ _. passes), alone))
          | inr fails ↦
              let gone = not-elem batches (
                All-imp {Q = λ (c : Batch). (c.id == id) ≡ true → test c ≡ false}
                  (λ (c : Batch) h equal. absurd (cc (h, equal))) batches apart) in
              absurd (cc (gone, rw fails at h))
        ]
  ]

-- Sorting changes no membership.
module _ {A : Type 0} (le : A → A → Bool) (f : A → ℕ) (n : ℕ) where
  elem-insert_by :
      (x : A) (ys : List A) → elem n (map f (insert_by le x ys)) ≡ elem n (f x ∷ map f ys)
  elem-insert_by x [] = refl
  elem-insert_by x (y ∷ ys) = elim (Bool-cases (le x y)) [
    | inl first ↦ rw first refl
    | inr later ↦ rw later (ground (arith, elem-insert_by x ys))
  ]

  pub elem-sort_by : (xs : List A) → elem n (map f (sort_by le xs)) ≡ elem n (map f xs)
  elem-sort_by [] = refl
  elem-sort_by (x ∷ xs) = ground (arith, elem-insert_by x (sort_by le xs), elem-sort_by xs)
