-- ===== src/Trash/Samples.antt =====
-- Two documents of one user, one of them in the trash, and the theorems applied to them.
use yarrow.Prelude.{ℕ, ◌≡◌, refl, Bool, false, not, ◌||◌, none, some, [], ◌∷◌, arith, keep}
use yarrow.Status.{processing, completed}
use yarrow.Trash.Model.{Document, Db, is_trash_expired}
use yarrow.Trash.Rows.{delete_document_rows, nothing, size_of}
use yarrow.Trash.Ops.{soft_delete_document, restore_document, purge_expired_documents}
use yarrow.Trash.Links.{IsLinked, delete_document_rows-IsLinked}
use yarrow.Trash.Charged.{IsCharged, Distinct, charged, charge}
use yarrow.Trash.Steps.{here, next, trashing, purging, Reach-IsCharged}
use yarrow.Trash.RoundTrip.{back_again, rows_again, restore_document-soft_delete_document}
use yarrow.Trash.Purge.{purge_expired_documents_lem}

abbrev working : Document
working = record {
  id = 1;
  owner_id = 7;
  status = processing;
  error_message = none;
  file_size_bytes = some 10;
  storage_key = some 100;
  client_upload_id = some 5;
  deleted_at = none;
  updated_at = 0;
}

abbrev old : Document
old = record {
  id = 2;
  owner_id = 7;
  status = completed;
  error_message = none;
  file_size_bytes = some 20;
  storage_key = some 200;
  client_upload_id = none;
  deleted_at = some 40;
  updated_at = 40;
}

abbrev rows : Db
rows = record {
  documents = working ∷ old ∷ [];
  pages =
      record { id = 11; document_id = 1; page_image_key = some 110; thumbnail_key = none }
      ∷ record { id = 12; document_id = 2; page_image_key = none; thumbnail_key = none }
      ∷ [];
  regions = record { id = 21; page_id = 11 } ∷ record { id = 22; page_id = 12 } ∷ [];
  region_texts = 21 ∷ 22 ∷ [];
  region_images = record { region_id = 21; image_key = some 210 } ∷ [];
  region_tables = record { id = 31; region_id = 21; table_id = 41 } ∷ [];
  tables = record { id = 41; document_id = 1 } ∷ [];
  table_cells = 31 ∷ 31 ∷ [];
  warnings = 11 ∷ 12 ∷ [];
  jobs =
      record {
        id = 51;
        document_id = 1;
        status = processing;
        current_stage = processing;
        celery_task_id = some 510;
        updated_at = 0;
      }
      ∷ [];
  job_pages = record { job_id = 51; status = processing; finished_at = none } ∷ [];
  shares = 2 ∷ [];
  tags = 1 ∷ 2 ∷ [];
  users =
      record { id = 7; storage_used_bytes = some 30 }
      ∷ record { id = 8; storage_used_bytes = none }
      ∷ [];
}

abbrev unlocked : ℕ → Bool
unlocked _ = false

rows-IsLinked : IsLinked rows
rows-IsLinked = record {
  of_pages = (refl, (refl, tt));
  of_tables = (refl, tt);
  of_regions = (refl, (refl, tt));
  of_warnings = (refl, (refl, tt));
  of_texts = (refl, (refl, tt));
  of_images = (refl, tt);
  on_regions = (refl, tt);
  in_tables = (refl, tt);
  of_cells = (refl, (refl, tt));
  of_jobs = (refl, tt);
  of_job_pages = (refl, tt);
  of_shares = (refl, tt);
  of_tags = (refl, (refl, tt));
}

rows-Distinct : Distinct rows.documents
unfolding Distinct
rows-Distinct = ((refl, tt), (tt, tt))

rows-IsCharged : IsCharged rows
unfolding IsCharged charged charge size_of
rows-IsCharged = (rows-Distinct, (refl, (refl, tt)))

delete_document_rows-IsLinked_example : IsLinked (delete_document_rows (1 ∷ []) rows).1
delete_document_rows-IsLinked_example = delete_document_rows-IsLinked (1 ∷ []) rows rows-IsLinked

Reach-IsCharged_example :
    IsCharged
      (purge_expired_documents unlocked 700000 (soft_delete_document unlocked 50 1 rows).1).1
Reach-IsCharged_example =
    Reach-IsCharged (next (next here (trashing unlocked 50 1)) (purging unlocked 700000))
      rows-IsCharged

restore_document-soft_delete_document_example :
    restore_document unlocked 60 1 7 (soft_delete_document unlocked 50 1 rows).1 ≡ (
      record { error = none; document = some (back_again 60 working); leftovers = nothing },
      rows_again 50 60 1 rows,
    )
restore_document-soft_delete_document_example =
    restore_document-soft_delete_document unlocked 50 60 working rows refl refl refl (omega arith)

purge_expired_documents_lem_example :
    (purge_expired_documents unlocked 700000 rows).1.documents
    ≡ keep
        (λ (d : Document). unlocked d.id || not (is_trash_expired d.deleted_at 700000))
        rows.documents
purge_expired_documents_lem_example = purge_expired_documents_lem unlocked 700000 rows rows-Distinct
