-- ===== src/Ingestion/Pages.antt =====
-- The rows of a job's pages through the changes that a run makes (worker/app/tasks/ingestion.py).
use yarrow.Prelude.{
  ℕ, zero, suc, ◌+◌, ◌≤◌, ◌≡◌, refl, ap, sym, ◌∙◌, Bool, true, false, ◌&&◌, ◌||◌, Option, List, [],
  ◌∷◌, map, ◌==◌, if◌then◌else◌, any, keep, count_of, range_from, All, All-imp, arith, Bool-cases,
  Option-cases, inl, inr,
}
use yarrow.Status.{Status, is_active, is_completed, is_failed}
use yarrow.Ingestion.Model.{
  PageError, JobPage, Page, PageEvent, started, page_completed, page_failed,
}
use yarrow.Ingestion.Ops.{queued_page, start_page, is_open, finish_page, is_queued, close_page}
use yarrow.Ingestion.Saving.{is_settled, settle_page, run_page}

abbrev pub settled : List JobPage → ℕ
settled = count_of is_settled

-- A job has one row for each page number.
unfoldable pub Distinct : List JobPage → Type 0
Distinct [] = Unit
Distinct (p ∷ pages) =
    All (λ (q : JobPage). (q.page_number == p.page_number) ≡ false) pages × Distinct pages

module _ (f : JobPage → JobPage) (keeps : (p : JobPage) → (f p).page_number ≡ p.page_number) where
  map-apart :
      (n m : ℕ) (pages : List JobPage)
      → m ≡ n
      → All (λ (q : JobPage). (q.page_number == n) ≡ false) pages
      → All (λ (q : JobPage). (q.page_number == m) ≡ false) (map f pages)
  map-apart n m [] same h = tt
  map-apart n m (q ∷ pages) same (one, h) = (cc (same, keeps q, one), map-apart n m pages same h)

  pub map-Distinct : (pages : List JobPage) → Distinct pages → Distinct (map f pages)
  unfolding Distinct
  map-Distinct [] h = tt
  map-Distinct (p ∷ pages) (differs, h) =
      (map-apart p.page_number (f p).page_number pages (keeps p) differs, map-Distinct pages h)

abbrev pub ends : PageEvent → Bool
ends started = false
ends page_completed = true
ends page_failed = true

pub active_unsettled : (s : Status) → is_active s ≡ true → (is_completed s || is_failed s) ≡ false
active_unsettled s h = ground (arith, h)

module _ (now n : ℕ) (error : Option PageError) where
  finish_open :
      (event : PageEvent) (p : JobPage)
      → ends event ≡ true
      → is_open n p ≡ true
      → is_settled (finish_page now n event error p) ≡ true
  finish_open started p h opened = absurd (cc h)
  finish_open page_completed p h opened = rw opened refl
  finish_open page_failed p h opened = rw opened refl

  finish_shut :
      (event : PageEvent) (p : JobPage) → is_open n p ≡ false → finish_page now n event error p ≡ p
  finish_shut started p shut = rw shut refl
  finish_shut page_completed p shut = rw shut refl
  finish_shut page_failed p shut = rw shut refl

  pub finish_number :
      (event : PageEvent) (p : JobPage)
      → (finish_page now n event error p).page_number ≡ p.page_number
  finish_number started p = elim (Bool-cases (is_open n p)) [
    | inl opened ↦ rw opened refl
    | inr shut ↦ rw shut refl
  ]
  finish_number page_completed p = elim (Bool-cases (is_open n p)) [
    | inl opened ↦ rw opened refl
    | inr shut ↦ rw shut refl
  ]
  finish_number page_failed p = elim (Bool-cases (is_open n p)) [
    | inl opened ↦ rw opened refl
    | inr shut ↦ rw shut refl
  ]

  pub none_open :
      (event : PageEvent) (pages : List JobPage)
      → All (λ (q : JobPage). (q.page_number == n) ≡ false) pages
      → (map (finish_page now n event error) pages ≡ pages) × (any (is_open n) pages ≡ false)
  none_open event [] h = (refl, refl)
  none_open event (q ∷ pages) (one, h) =
      let (same, nobody) = none_open event pages h in
      let shut : is_open n q ≡ false = rw one refl in
      (cc (finish_shut event q shut, same), rw shut nobody)

  -- Ending the page with this number ends one page more, if it is open.
  pub settled-finish_page :
      (event : PageEvent) (pages : List JobPage)
      → ends event ≡ true
      → Distinct pages
      → settled (map (finish_page now n event error) pages)
        ≡ settled pages + (if any (is_open n) pages then 1 else 0)
  unfolding Distinct
  settled-finish_page event [] h distinct = refl
  settled-finish_page event (p ∷ pages) h (differs, distinct) = elim (Bool-cases (is_open n p)) [
    | inr shut ↦
        let same = finish_shut event p shut in
        let rest = settled-finish_page event pages h distinct in
        rw (same, shut) (ground (arith, rest))
    | inl opened ↦
        let number : p.page_number ≡ n = ground (arith, opened) in
        let alone = none_open event pages (
          All-imp (λ (q : JobPage) apart. ap (λ m. q.page_number == m) (sym number) ∙ apart) pages
            differs) in
        let active : is_active p.status ≡ true = ground (arith, opened) in
        rw (alone.0, finish_open event p h opened, opened, active_unsettled p.status active)
          (omega arith)
  ]

-- A change of rows that settles none and unsettles none.
pub settled-map :
    (f : JobPage → JobPage) (pages : List JobPage)
    → ((p : JobPage) → is_settled (f p) ≡ is_settled p)
    → settled (map f pages) ≡ settled pages
settled-map f [] same = refl
settled-map f (p ∷ pages) same = rw (same p, settled-map f pages same) refl

pub start_settled :
    (now n : ℕ) (p : JobPage)
    → (is_settled (start_page now n p) ≡ is_settled p)
      × ((start_page now n p).page_number ≡ p.page_number)
start_settled now n p = elim (Bool-cases (p.page_number == n && is_queued p.status)) [
  | inl starts ↦
      let active : is_active p.status ≡ true = ground (arith, starts) in
      rw (starts, active_unsettled p.status active) (refl, refl)
  | inr stays ↦ rw stays (refl, refl)
]

pub close_settled :
    (now : ℕ) (p : JobPage)
    → (is_settled (close_page now p) ≡ is_settled p)
      × ((close_page now p).page_number ≡ p.page_number)
close_settled now p = elim (Bool-cases (is_active p.status)) [
  | inl active ↦ rw (active, active_unsettled p.status active) (refl, refl)
  | inr idle ↦ rw idle (refl, refl)
]

pub settle_number :
    (now : ℕ) (run_pages : List Page) (p : JobPage)
    → (settle_page now run_pages p).page_number ≡ p.page_number
settle_number now run_pages p = elim (Option-cases (run_page p.page_number run_pages)) [
  | inl missing ↦ rw (missing, settle_page) refl
  | inr (done, found) ↦ rw (found, settle_page) refl
]

pub queued_settled : (numbers : List ℕ) → settled (map queued_page numbers) ≡ 0
queued_settled [] = refl
queued_settled (n ∷ numbers) = queued_settled numbers

module _ (test : ℕ → Bool) where
  above :
      (low first count : ℕ)
      → low + 1 ≤ first
      → All
          (λ (q : JobPage). (q.page_number == low) ≡ false)
          (map queued_page (keep test (range_from first count)))
  above low first zero h = tt
  above low first (suc count) h =
      let rest = above low (suc first) count (omega arith) in
      elim (Bool-cases (test first)) [
        | inl chosen ↦ rw chosen (ground arith, rest)
        | inr left ↦ rw left rest
      ]

  pub queued-Distinct :
      (first count : ℕ) → Distinct (map queued_page (keep test (range_from first count)))
  unfolding Distinct
  queued-Distinct first zero = tt
  queued-Distinct first (suc count) =
      let rest = queued-Distinct (suc first) count in
      elim (Bool-cases (test first)) [
        | inl chosen ↦ rw chosen (above first (suc first) count (omega arith), rest)
        | inr left ↦ rw left rest
      ]
