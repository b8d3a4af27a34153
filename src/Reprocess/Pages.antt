-- ===== src/Reprocess/Pages.antt =====
-- Which pages a run that was queued covers (backend/app/services/reprocess.py).
use yarrow.Prelude.{
  ℕ, suc, zero, ◌+◌, ◌≤◌, ◌≡◌, ◌⊎◌, refl, Bool, true, not, ◌&&◌, Option, none, some, List, ltb, leb,
  length, elem, elem-keep, range_from, arith, Bool-cases, Option-cases, inl, inr,
}
use yarrow.Reprocess.Model.{
  Scope, Db, Request, is_running, reprocess_scope, scope_pages, incomplete, all, pages_to_process,
  reprocess_document, enqueue_job, latest,
}

elem-range_from :
    (n first count : ℕ) → elem n (range_from first count) ≡ (leb first n && ltb n (first + count))
elem-range_from n first zero = ground arith
elem-range_from n first (suc count) = ground (arith, elem-range_from n (suc first) count)

-- Whether a run covers a page; one without a list of pages covers the whole document.
abbrev pub in_run : ℕ → Option (List ℕ) → Bool
in_run page none = true
in_run page (some pages) = elem page pages

pages_to_process-covers :
    (completed : List ℕ) (page page_count : ℕ)
    → 1 ≤ page
    → page ≤ page_count
    → (elem page completed ≡ true)
      ⊎ (in_run page (pages_to_process (some page_count) completed) ≡ true)
unfolding pages_to_process
pages_to_process-covers completed page page_count first last =
    elim (Bool-cases (elem page completed)) [
      | inl done ↦ inl done
      | inr left ↦ inr (
          ground (
            arith,
            left,
            elem-keep page (λ number. not (elem number completed)) (range_from 1 page_count),
            elem-range_from page 1 page_count,
          ))
    ]

scope_pages-covers :
    (scope : Option Scope) (db : Db) (page page_count : ℕ)
    → db.page_count ≡ some page_count
    → 1 ≤ page
    → page ≤ page_count
    → (elem page db.completed ≡ true) ⊎ (in_run page (scope_pages scope db) ≡ true)
scope_pages-covers none db page page_count known first last = inr refl
scope_pages-covers (some all) db page page_count known first last = inr refl
scope_pages-covers (some incomplete) db page page_count known first last =
    rw known (pages_to_process-covers db.completed page page_count first last)

-- A request that is accepted for a document with a known number of pages leaves none of them out:
-- each is completed already, or the run covers it.
pub reprocess_document-covers :
    (limit now : ℕ) (meanwhile : Db → Db) (request : Request) (db : Db) (page page_count : ℕ)
    → (reprocess_document limit now meanwhile request db).0.error ≡ none
    → db.page_count ≡ some page_count
    → 1 ≤ page
    → page ≤ page_count
    → (elem page db.completed ≡ true)
      ⊎ (in_run page (reprocess_document limit now meanwhile request db).0.pages ≡ true)
unfolding reprocess_document
reprocess_document-covers limit now meanwhile request db page page_count accepted known first last =
    elim (Bool-cases (is_running limit (latest db.jobs) now)) [
      | inl running ↦ absurd (cc (rw running at accepted))
      | inr idle ↦ elim (Option-cases request.task_id) [
        | inl down ↦ absurd (unfold enqueue_job in cc (rw (idle, down) at accepted))
        | inr (task, up) ↦
            rw (idle, up)
              (unfold enqueue_job in
                scope_pages-covers
                  (reprocess_scope limit db.status db.page_count (length db.completed)
                    (latest db.jobs) now)
                  db page page_count known first last)
      ]
    ]
