-- ===== src/Search/Within.antt =====
-- `within_one_edit` against its reference (backend/app/services/search_query.py).
use yarrow.Prelude.{
  ℕ, ◌-◌, ◌≤◌, ◌≡◌, ◌↔◌, subst₂, Bool, true, List, ltb, leb, length, arith, Bool-cases, inl, inr,
  leb→le, le→leb,
}
use yarrow.Search.Edit.{fill, first_table, within_ordered, within_one_edit}
use yarrow.Search.OneEdit.{OneEdit, OneEdit-sym, OneEdit-length, rev, rev-OneEdit, rev-rev}
use yarrow.Search.Distance.{distance, distance-OneEdit, OneEdit-distance}
use yarrow.Search.Filled.{fill-distance}

module _ (a b : List ℕ) where
  corner : Bool
  corner = leb (fill a b (length a) first_table (length a) (length b)) 1

  corner-OneEdit : corner ≡ true → OneEdit a b
  unfolding corner
  corner-OneEdit h =
      let near : distance (rev a) (rev b) ≤ 1 = omega (arith, leb→le _ 1 h, fill-distance a b) in
      subst₂ OneEdit (rev-rev a) (rev-rev b) (rev-OneEdit (distance-OneEdit (rev a) (rev b) near))

  OneEdit-corner : OneEdit a b → corner ≡ true
  unfolding corner
  OneEdit-corner e = le→leb _ 1 (omega (arith, OneEdit-distance (rev-OneEdit e), fill-distance a b))

  within_ordered-OneEdit : (within_ordered a b ≡ true) ↔ OneEdit a b
  unfolding within_ordered corner
  within_ordered-OneEdit = elim (Bool-cases (ltb 1 (length b - length a))) [
    | inl far ↦
        rw far ((λ never. absurd (cc never)), (λ e. absurd (ground (arith, far, OneEdit-length e))))
    | inr near ↦ rw near (corner-OneEdit, OneEdit-corner)
  ]

-- Two words match within one edit exactly when they are equal, or one becomes the other by one
-- character inserted, deleted or replaced, or two neighbours swapped.
pub within_one_edit-OneEdit : (a b : List ℕ) → (within_one_edit a b ≡ true) ↔ OneEdit a b
unfolding within_one_edit
within_one_edit-OneEdit a b =
    let (there, back) = within_ordered-OneEdit b a in
    elim (Bool-cases (ltb (length b) (length a))) [
      | inl longer ↦ rw longer ((λ h. OneEdit-sym (there h)), (λ e. back (OneEdit-sym e)))
      | inr shorter ↦ rw shorter (within_ordered-OneEdit a b)
    ]
