-- ===== src/Trash/Links.antt =====
-- Deleting documents leaves no row that refers to a missing one
-- (backend/app/services/document_deletion.py).
use yarrow.Prelude.{
  ℕ, ◌≡◌, refl, ap, ◌∙◌, Bool, true, false, not, ◌||◌, List, [], ◌∷◌, map, ◌==◌, keep, any, elem,
  All, All-imp, everywhere, Bool-cases, inl, inr, arith, ==_iff, ==_refl,
}
use yarrow.Trash.Model.{Document, Page, Region, RegionImage, Table, RegionTable, Job, JobPage, Db}
use yarrow.Trash.Rows.{
  itself, page_ids, region_ids, table_ids, region_table_ids, job_ids, delete_table_rows,
  delete_region_rows, delete_page_rows, delete_own_rows, delete_document_rows,
}

-- A row with this id is there.
abbrev pub Has {ℓ} : {A : Type ℓ} → (A → ℕ) → List A → ℕ → Type 0
Has id rows n = any (λ a. id a == n) rows ≡ true

module _ {A : Type 0} (id : A → ℕ) where
  Has-keep :
      (gone : List ℕ) (kept : A → Bool) (n : ℕ) (rows : List A)
      → All (λ a. elem (id a) gone ≡ false → kept a ≡ true) rows
      → elem n gone ≡ false
      → Has id rows n
      → Has id (keep kept rows) n
  Has-keep gone kept n [] h out there = there
  Has-keep gone kept n (a ∷ rows) (one, h) out there =
      let later = Has-keep gone kept n rows h out in
      elim (Bool-cases (id a == n)) [
        | inl same ↦
            let stays : kept a ≡ true =
              one (ap (λ m. elem m gone) ((==_iff (id a) n).0 same) ∙ out) in
            rw stays (rw same refl)
        | inr other ↦ ground (arith, later)
      ]

  -- The id of a row that passes the test is among the ids of those that do.
  listed_more :
      (test : A → Bool) (a : A) (rows : List A) (n : ℕ)
      → elem n (map id (keep test rows)) ≡ true
      → elem n (map id (keep test (a ∷ rows))) ≡ true
  listed_more test a rows n h = ground (arith, h)

  pub listed :
      (test : A → Bool) (rows : List A)
      → All (λ a. test a ≡ true → elem (id a) (map id (keep test rows)) ≡ true) rows
  listed test [] = tt
  listed test (a ∷ rows) = (
    (λ passes. rw passes (ground (arith, ==_refl (id a)))),
    All-imp (λ b h passes. listed_more test a rows (id b) (h passes)) rows (listed test rows),
  )

  unlisted :
      (test : A → Bool) (rows : List A)
      → All (λ a. not (elem (id a) (map id (keep test rows))) ≡ true → test a ≡ false) rows
  unlisted test rows = All-imp (λ a h out. unlisted_row a h out) rows (listed test rows)
    where
      unlisted_row :
          (a : A)
          → (test a ≡ true → elem (id a) (map id (keep test rows)) ≡ true)
          → not (elem (id a) (map id (keep test rows))) ≡ true
          → test a ≡ false
      unlisted_row a h out = elim (Bool-cases (test a)) [
        | inl passes ↦ absurd (ground (arith, h passes))
        | inr fails ↦ fails
      ]

-- Each child's parent is there still, when no kept child has a deleted parent.
module _ {A B : Type 0} (id : A → ℕ) (key : B → ℕ) (gone : List ℕ) where
  linked :
      (stays : A → Bool) (kept : B → Bool) (parents : List A) (children : List B)
      → All (λ a. elem (id a) gone ≡ false → stays a ≡ true) parents
      → All (λ c. kept c ≡ true → elem (key c) gone ≡ false) children
      → All (λ c. Has id parents (key c)) children
      → All (λ c. Has id (keep stays parents) (key c)) (keep kept children)
  linked stays kept parents [] s k h = tt
  linked stays kept parents (c ∷ children) s (k, ks) (h, hs) =
      let rest = linked stays kept parents children s ks hs in
      elim (Bool-cases (kept c)) [
        | inl stay ↦ rw stay (Has-keep id gone stays (key c) parents s (k stay) h, rest)
        | inr drop ↦ rw drop rest
      ]

-- Every row refers to rows that are there.
pub record IsLinked (db : Db) : Type 0 where
  pub of_pages :
      All (λ (p : Page). Has (λ (d : Document). d.id) db.documents p.document_id) db.pages
  pub of_tables :
      All (λ (t : Table). Has (λ (d : Document). d.id) db.documents t.document_id) db.tables
  pub of_regions : All (λ (r : Region). Has (λ (p : Page). p.id) db.pages r.page_id) db.regions
  pub of_warnings : All (Has (λ (p : Page). p.id) db.pages) db.warnings
  pub of_texts : All (Has (λ (r : Region). r.id) db.regions) db.region_texts
  pub of_images :
      All (λ (i : RegionImage). Has (λ (r : Region). r.id) db.regions i.region_id) db.region_images
  pub on_regions :
      All (λ (r : RegionTable). Has (λ (r : Region). r.id) db.regions r.region_id) db.region_tables
  pub in_tables :
      All (λ (r : RegionTable). Has (λ (t : Table). t.id) db.tables r.table_id) db.region_tables
  pub of_cells : All (Has (λ (r : RegionTable). r.id) db.region_tables) db.table_cells
  pub of_jobs : All (λ (j : Job). Has (λ (d : Document). d.id) db.documents j.document_id) db.jobs
  pub of_job_pages : All (λ (p : JobPage). Has (λ (j : Job). j.id) db.jobs p.job_id) db.job_pages
  pub of_shares : All (Has (λ (d : Document). d.id) db.documents) db.shares
  pub of_tags : All (Has (λ (d : Document). d.id) db.documents) db.tags

off : (b : Bool) → b ≡ false → not b ≡ true
off b h = ap not h

out : (b : Bool) → not b ≡ true → b ≡ false
out false h = refl
out true h = cc h

neither : (a b : Bool) → (a || b) ≡ false → (a ≡ false) × (b ≡ false)
neither false b h = (refl, h)
neither true b h = cc h

module _ {A B : Type 0} (id : A → ℕ) (key : B → ℕ) (gone : List ℕ) where
  -- The children of the deleted parents go by their own key.
  direct :
      (parents : List A) (children : List B)
      → All (λ c. Has id parents (key c)) children
      → All
          (λ c. Has id (keep (λ a. not (elem (id a) gone)) parents) (key c))
          (keep (λ c. not (elem (key c) gone)) children)
  direct parents children h =
      linked id key gone (λ a. not (elem (id a) gone)) (λ c. not (elem (key c) gone)) parents
        children (everywhere (λ a absent. off _ absent) parents)
        (everywhere (λ c kept. out _ kept) children) h

  -- Or by their ids, which were collected with a test that a deleted parent passes.
  collected :
      (own : B → ℕ) (test : B → Bool)
      → ((c : B) → test c ≡ false → elem (key c) gone ≡ false)
      → (parents : List A) (children : List B) → All (λ c. Has id parents (key c)) children
      → All
          (λ c. Has id (keep (λ a. not (elem (id a) gone)) parents) (key c))
          (keep (λ c. not (elem (own c) (map own (keep test children)))) children)
  collected own test misses parents children h =
      linked id key gone (λ a. not (elem (id a) gone))
        (λ c. not (elem (own c) (map own (keep test children)))) parents children
        (everywhere (λ a absent. off _ absent) parents)
        (All-imp (λ c away kept. misses c (away kept)) children (unlisted own test children)) h

-- From rows that all refer to rows that are there, deleting documents leaves such rows again.
pub delete_document_rows-IsLinked :
    (document_ids : List ℕ) (db : Db)
    → IsLinked db
    → IsLinked (delete_document_rows document_ids db).1
unfolding delete_document_rows delete_own_rows delete_page_rows delete_region_rows delete_table_rows
    page_ids region_ids table_ids region_table_ids
delete_document_rows-IsLinked document_ids db h =
    let gone_pages = page_ids document_ids db in
    let gone_regions = region_ids document_ids db in
    let gone_tables = table_ids document_ids db in
    let gone_parts = region_table_ids document_ids db in
    record {
      of_pages =
          collected (λ (d : Document). d.id) (λ (p : Page). p.document_id) document_ids
            (λ (p : Page). p.id) (λ (p : Page). elem p.document_id document_ids)
            (λ c no_match. no_match) db.documents db.pages h.of_pages;
      of_tables =
          collected (λ (d : Document). d.id) (λ (t : Table). t.document_id) document_ids
            (λ (t : Table). t.id) (λ (t : Table). elem t.document_id document_ids)
            (λ c no_match. no_match) db.documents db.tables h.of_tables;
      of_regions =
          collected (λ (p : Page). p.id) (λ (r : Region). r.page_id) gone_pages
            (λ (r : Region). r.id) (λ (r : Region). elem r.page_id gone_pages)
            (λ c no_match. no_match) db.pages db.regions h.of_regions;
      of_warnings =
          direct (λ (p : Page). p.id) itself gone_pages db.pages db.warnings h.of_warnings;
      of_texts =
          direct (λ (r : Region). r.id) itself gone_regions db.regions db.region_texts h.of_texts;
      of_images =
          direct (λ (r : Region). r.id) (λ (i : RegionImage). i.region_id) gone_regions db.regions
            db.region_images h.of_images;
      on_regions =
          collected (λ (r : Region). r.id) (λ (r : RegionTable). r.region_id) gone_regions
            (λ (r : RegionTable). r.id)
            (λ (r : RegionTable). elem r.region_id gone_regions || elem r.table_id gone_tables)
            (λ c no_match. (neither _ _ no_match).0) db.regions db.region_tables h.on_regions;
      in_tables =
          collected (λ (t : Table). t.id) (λ (r : RegionTable). r.table_id) gone_tables
            (λ (r : RegionTable). r.id)
            (λ (r : RegionTable). elem r.region_id gone_regions || elem r.table_id gone_tables)
            (λ c no_match. (neither _ _ no_match).1) db.tables db.region_tables h.in_tables;
      of_cells =
          direct (λ (r : RegionTable). r.id) itself gone_parts db.region_tables db.table_cells
            h.of_cells;
      of_jobs =
          linked (λ (d : Document). d.id) (λ (j : Job). j.document_id) document_ids
            (λ d. not (elem d.id document_ids)) (λ j. not (elem j.document_id document_ids))
            db.documents db.jobs (everywhere (λ d absent. off _ absent) db.documents)
            (everywhere (λ j kept. out _ kept) db.jobs) h.of_jobs;
      of_job_pages =
          linked (λ (j : Job). j.id) (λ (p : JobPage). p.job_id) (job_ids document_ids db)
            (λ j. not (elem j.document_id document_ids))
            (λ p. not (elem p.job_id (job_ids document_ids db))) db.jobs db.job_pages
            (All-imp (λ j away kept. off _ (away (off _ kept))) db.jobs
              (unlisted (λ (j : Job). j.id) (λ (j : Job). elem j.document_id document_ids) db.jobs))
            (everywhere (λ p kept. out _ kept) db.job_pages) h.of_job_pages;
      of_shares =
          direct (λ (d : Document). d.id) itself document_ids db.documents db.shares h.of_shares;
      of_tags = direct (λ (d : Document). d.id) itself document_ids db.documents db.tags h.of_tags;
    }
