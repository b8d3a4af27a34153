-- ===== src/Lib.antt =====
-- Yarrow: a service that stores uploaded documents, reads them by OCR and lets their owners
-- correct what was read. The model follows the parts that keep its data consistent.
--
-- * Prelude and its children: shared names, Boolean tests, lists over the native numbers, integers
--   and sorting. Status: the status strings that documents, jobs, pages and upload sessions share.
-- * Corrections (backend/app/services/corrections.py): `update_region_text` and
--   `undo_region_correction` on the rows of one database session, and `apply`, which is `_apply`:
--   the commit or rollback around them. Text rows are keyed by their region.
-- * Uploads (backend/app/api/v1/endpoints/uploads.py, backend/app/services/upload_sessions.py):
--   Uploads.Model has the rows of the session, its chunks, documents, jobs and batches with the
--   stored objects; Uploads.Sessions starts, reads and abandons a session (the space that others
--   reserve is backend/app/services/storage_usage.py); Uploads.Chunks is `put_chunk`, with the checks
--   before the row lock (`check_part`) and the step under it (`store_part`); Uploads.Finalize is
--   `finalize_upload`, with the lookups that it shares with
--   backend/app/api/v1/endpoints/documents.py; Uploads.Sweep is `purge_expired_upload_sessions`.
--   Requests on one session take turns at its row lock, so each is a function of the rows it finds
--   there; what a request read earlier is a separate argument, and what others commit while a
--   finalize stores its object is the argument `meanwhile`. Digests and file types come from
--   `Externals`, failures of the store and the queue from `Faults`.
-- * Tables (packages/yarrow-db/src/yarrow_db/utils/table_utils.py): a table with its parts on
--   several pages, and how tables are merged, split, repacked and extended. Parts are kept with their
--   table, in any order; `ordered_parts` sorts them.
-- * TableEdits (backend/app/services/table_edit.py): a user's merge of two tables, the split of one
--   and the pairs that are offered for merging, over the operations of Tables.
-- * ReadingOrder (worker/app/pipeline/reading_order.py): `order_blocks` with the columns that it
--   finds. The operations on floats are the parameter `Floats`.
-- * Reprocess (backend/app/services/reprocess.py): which pages a new run covers, and
--   `reprocess_document` on a document's row and its jobs; what others commit between its two commits
--   is the argument `meanwhile`.
-- * Progress (backend/app/services/job_progress.py): the progress of a job and the closing of its
--   open pages.
--
-- * Trash (backend/app/services/document_deletion.py): Trash.Rows deletes a document's rows table by
--   table, refunds its size and stops its jobs; Trash.Ops has the operations that move documents to
--   the trash, restore, purge and wipe them, over the rows of all documents and users. A row lock
--   that does not come in time is the argument `locked`.
-- * Batches (backend/app/services/batch_notifications.py, with its endpoints in
--   backend/app/api/v1/endpoints/documents.py): sealing, progress, claiming and acknowledging of
--   upload batches over the rows of all users; Batches.Steps has the requests as steps, each with
--   its own time.
-- * Ingestion (worker/app/tasks/ingestion.py, and the cancel of
--   backend/app/api/v1/endpoints/documents.py): Ingestion.Ops and Ingestion.Saving have each
--   transaction of the worker on a job, its pages, its document and the page rows; Ingestion.Task
--   is `process_document_task`, composed of them. How the store and the parser end is the argument
--   `world`, what others commit before each transaction is the argument `meanwhile`.
-- * Search (backend/app/services/search_query.py): `within_one_edit`, with its table as a function of
--   two indices that the loops fill, and `parse_query`, with the Unicode normalization as an
--   argument.
--
-- Ids, times and sizes are natural numbers. Every loop of the source goes over a list or a range and
-- needs no fuel, but for that of `parse_query`, whose turns are counted: as many as the text has
-- characters are enough.
--
-- Not modelled: the frontend, the OCR and layout models, HTTP, authentication, mail, cloud storage
-- connectors, migrations and the database itself, whose rows are the state of the model.
pub mod Prelude
pub mod Status
pub mod Corrections
pub mod Uploads
pub mod Reprocess
pub mod Progress
pub mod Tables
pub mod TableEdits
pub mod ReadingOrder
pub mod Trash
pub mod Batches
pub mod Ingestion
pub mod Search
