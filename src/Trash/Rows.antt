-- ===== src/Trash/Rows.antt =====
-- Deleting a document's rows, refunding its size and stopping its jobs
-- (backend/app/services/document_deletion.py).
use yarrow.Prelude.{
  ℕ, ◌-◌, not, ◌&&◌, ◌||◌, Option, none, some, List, [], ◌∷◌, ◌++◌, map, ◌==◌, if◌then◌else◌,
  or_else, keep, elem,
}
use yarrow.Status.{canceled, is_active}
use yarrow.Trash.Model.{
  Document, Page, Region, RegionImage, Table, RegionTable, Job, JobPage, User, Db,
}

abbrev pub somes : List (Option ℕ) → List ℕ
somes [] = []
somes (none ∷ keys) = somes keys
somes (some key ∷ keys) = key ∷ somes keys

-- `delete(...).where(key in ids)`
abbrev pub without {ℓ} : {A : Type ℓ} → (A → ℕ) → List ℕ → List A → List A
without key ids = keep (λ a. not (elem (key a) ids))

abbrev pub itself : ℕ → ℕ
itself n = n

module _ (document_ids : List ℕ) where
  unfoldable pub page_ids : Db → List ℕ
  page_ids db =
      map (λ (p : Page). p.id) (keep (λ (p : Page). elem p.document_id document_ids) db.pages)

  unfoldable pub region_ids : Db → List ℕ
  region_ids db =
      map (λ (r : Region). r.id) (keep (λ (r : Region). elem r.page_id (page_ids db)) db.regions)

  unfoldable pub table_ids : Db → List ℕ
  table_ids db =
      map (λ (t : Table). t.id) (keep (λ (t : Table). elem t.document_id document_ids) db.tables)

  unfoldable pub region_table_ids : Db → List ℕ
  region_table_ids db =
      map (λ (r : RegionTable). r.id)
        (keep
          (λ (r : RegionTable). elem r.region_id (region_ids db) || elem r.table_id (table_ids db))
          db.region_tables)

  -- The keys of the stored files, in the order of the queries.
  unfoldable pub stored_keys : Db → List ℕ
  stored_keys db =
      somes (
        map (λ (d : Document). d.storage_key)
          (keep (λ (d : Document). elem d.id document_ids) db.documents))
      ++ somes (
          map (λ (i : RegionImage). i.image_key)
            (keep (λ (i : RegionImage). elem i.region_id (region_ids db)) db.region_images))
      ++ somes (
          map (λ (p : Page). p.page_image_key)
            (keep (λ (p : Page). elem p.document_id document_ids) db.pages))
      ++ somes (
          map (λ (p : Page). p.thumbnail_key)
            (keep (λ (p : Page). elem p.document_id document_ids) db.pages))

  -- The statements, each on the rows that the ones before it left.
  unfoldable pub delete_table_rows : Db → Db
  delete_table_rows db =
      let uncelled = record db {
        table_cells = without itself (region_table_ids db) db.table_cells;
      } in
      record uncelled {
        region_tables =
            without (λ (r : RegionTable). r.id) (region_table_ids uncelled) uncelled.region_tables;
      }

  unfoldable pub delete_region_rows : Db → Db
  delete_region_rows db =
      let untexted = record db { region_texts = without itself (region_ids db) db.region_texts } in
      let unimaged = record untexted {
        region_images =
            without (λ (i : RegionImage). i.region_id) (region_ids untexted) untexted.region_images;
      } in
      record unimaged {
        regions = without (λ (r : Region). r.id) (region_ids unimaged) unimaged.regions;
      }

  unfoldable pub delete_page_rows : Db → Db
  delete_page_rows db =
      let unwarned = record db { warnings = without itself (page_ids db) db.warnings } in
      let unpaged = record unwarned {
        pages = without (λ (p : Page). p.id) (page_ids unwarned) unwarned.pages;
      } in
      record unpaged { tables = without (λ (t : Table). t.id) (table_ids unpaged) unpaged.tables }

  abbrev pub job_ids : Db → List ℕ
  job_ids db = map (λ (j : Job). j.id) (keep (λ (j : Job). elem j.document_id document_ids) db.jobs)

  -- The pages of a job go with it.
  unfoldable pub delete_own_rows : Db → Db
  delete_own_rows db = record db {
    jobs = without (λ (j : Job). j.document_id) document_ids db.jobs;
    job_pages = without (λ (p : JobPage). p.job_id) (job_ids db) db.job_pages;
    shares = without itself document_ids db.shares;
    tags = without itself document_ids db.tags;
    documents = without (λ (d : Document). d.id) document_ids db.documents;
  }

  unfoldable pub delete_document_rows : Db → List ℕ × Db
  delete_document_rows db = (
    stored_keys db,
    delete_own_rows (delete_page_rows (delete_region_rows (delete_table_rows db))),
  )

unfoldable pub unfinished_task_ids : ℕ → Db → List ℕ
unfinished_task_ids document_id db = somes (
    map (λ (j : Job). j.celery_task_id)
      (keep (λ (j : Job). (j.document_id == document_id) && is_active j.status) db.jobs))

-- `greatest(coalesce(storage_used_bytes, 0) - size, 0)`
unfoldable pub refund_quota : ℕ → ℕ → List User → List User
refund_quota owner_id size = map (λ (u : User).
    if u.id == owner_id
    then record u { storage_used_bytes = some (or_else u.storage_used_bytes 0 - size) }
    else u)

unfoldable pub size_of : Document → ℕ
size_of document = or_else document.file_size_bytes 0

-- What is left to remove after a commit: stored files and queued tasks.
pub record Leftovers : Type 0 where
  pub storage_keys : List ℕ
  pub task_ids : List ℕ

abbrev pub nothing : Leftovers
nothing = record { storage_keys = []; task_ids = [] }

unfoldable pub wipe_locked_document : Document → Db → Leftovers × Db
wipe_locked_document document db =
    let (keys, after) = delete_document_rows (document.id ∷ []) db in
    (
      record { storage_keys = keys; task_ids = unfinished_task_ids document.id db },
      record after { users = refund_quota document.owner_id (size_of document) after.users },
    )

abbrev pub cancel_job : ℕ → ℕ → Job → Job
cancel_job now document_id job =
    if (job.document_id == document_id) && is_active job.status
    then record job { status = canceled; current_stage = canceled; updated_at = now }
    else job

abbrev pub cancel_page : ℕ → List ℕ → JobPage → JobPage
cancel_page now ids page =
    if elem page.job_id ids && is_active page.status
    then record page { status = canceled; finished_at = some now }
    else page

abbrev pub stop_document : Document → Document
stop_document document =
    if is_active document.status
    then record document { status = canceled; error_message = none }
    else document

abbrev pub replace : ℕ → (Document → Document) → List Document → List Document
replace id f = map (λ (d : Document). if d.id == id then f d else d)

-- The unfinished jobs of the document and their open pages are canceled.
unfoldable pub stop_unfinished_jobs : ℕ → Document → Db → List ℕ × Db
stop_unfinished_jobs now document db =
    let unfinished =
      keep (λ (j : Job). (j.document_id == document.id) && is_active j.status) db.jobs in
    (
      unfinished_task_ids document.id db,
      record db {
        jobs = map (cancel_job now document.id) db.jobs;
        job_pages = map (cancel_page now (map (λ (j : Job). j.id) unfinished)) db.job_pages;
        documents = replace document.id stop_document db.documents;
      },
    )
