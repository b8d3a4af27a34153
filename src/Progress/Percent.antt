-- ===== src/Progress/Percent.antt =====
-- Bounds of the progress (backend/app/services/job_progress.py).
use yarrow.Prelude.{
  ℕ, ◌+◌, ◌*◌, ◌/◌, ◌≤◌, ◌<◌, ◌≡◌, refl, true, Option, arith, ◌==◌, Bool-cases, inl, inr,
}
use native.Mathlib.Nat.{le-div_iff_mul-le}
use yarrow.Status.{Status}
use yarrow.Progress.Model.{progress_percent, terminal}

div-le : (a b n : ℕ) → 0 < n → a ≤ b → a / n ≤ b / n
div-le a b n pos h =
    let down = (le-div_iff_mul-le {k = n} {x = a / n} {y = a} pos).0 (omega arith) in
    (le-div_iff_mul-le {k = n} {x = a / n} {y = b} pos).1 (omega (arith, down))

full : (finished total : ℕ) → 0 < total → total ≤ finished → 100 ≤ (100 * finished) / total
full finished total pos h =
    (le-div_iff_mul-le {k = total} {x = 100} {y = 100 * finished} pos).1 (omega arith)

-- The progress is at most 100, it never goes down while more pages are finished, and a job that
-- has ended, or whose pages are all finished, is at 100.
pub progress_percent-bounds :
    (status : Option Status) (total finished more : ℕ)
    → (progress_percent status total finished ≤ 100)
      × (progress_percent status total finished ≤ progress_percent status total (finished + more))
      × (terminal status ≡ true → progress_percent status total finished ≡ 100)
      × (0 < total → total ≤ finished → progress_percent status total finished ≡ 100)
unfolding progress_percent
progress_percent-bounds status total finished more = elim (Bool-cases (terminal status)) [
  | inl ended ↦ rw ended (omega arith, omega arith, (λ _. refl), (λ _ _. refl))
  | inr goes ↦ rw goes (elim (Bool-cases (total == 0)) [
    | inl empty ↦ rw empty (omega arith, omega arith, (λ h. cc), (λ pos _. ground arith))
    | inr some_pages ↦ rw some_pages (
      omega arith,
      ground (
        arith,
        div-le (100 * finished) (100 * (finished + more)) total (ground arith) (omega arith),
      ),
      (λ h. cc),
      (λ pos h. omega (arith, full finished total pos h)),
    )
  ])
]
