-- ===== src/Search/Samples.antt =====
-- A word with two letters swapped, and the theorem applied to it.
use yarrow.Prelude.{All, length, some, ℕ, ◌≡◌, ◌↔◌, refl, true, false, List, [], ◌∷◌}
use yarrow.Search.Edit.{within_one_edit, within_ordered, fill, fill_row, cell}
use yarrow.Search.OneEdit.{OneEdit}
use yarrow.Search.Parse.{Term, is_blank, parse_query, parse_terms, next_term, split_words}
use yarrow.Search.Terms.{is_proper, parse_query-ends}
use yarrow.Search.Within.{within_one_edit-OneEdit}

-- "scena" and "scean"
abbrev meant : List ℕ
meant = 115 ∷ 99 ∷ 101 ∷ 110 ∷ 97 ∷ []

abbrev misread : List ℕ
misread = 115 ∷ 99 ∷ 101 ∷ 97 ∷ 110 ∷ []

one_swap : within_one_edit meant misread ≡ true
unfolding within_one_edit within_ordered fill fill_row cell
one_swap = refl

two_edits : within_one_edit meant (97 ∷ misread) ≡ false
unfolding within_one_edit within_ordered fill fill_row cell
two_edits = refl

within_one_edit-OneEdit_example : (within_one_edit meant misread ≡ true) ↔ OneEdit meant misread
within_one_edit-OneEdit_example = within_one_edit-OneEdit meant misread

-- ab "c d", without a closing quote.
abbrev query : List ℕ
query = 97 ∷ 98 ∷ 32 ∷ 34 ∷ 99 ∷ 32 ∷ 32 ∷ 100 ∷ []

two_terms :
    parse_query is_blank (λ text. text) 8 query
    ≡ some (
        record { words = (97 ∷ 98 ∷ []) ∷ []; quoted = false }
        ∷ record { words = (99 ∷ []) ∷ (100 ∷ []) ∷ []; quoted = true }
        ∷ [])
unfolding parse_query parse_terms next_term split_words
two_terms = refl

parse_query-ends_example :
    (terms : List Term) × (parse_query is_blank (λ text. text) (length query) query ≡ some terms)
    × All (λ t. is_proper is_blank t ≡ true) terms
parse_query-ends_example = parse_query-ends is_blank (λ text. text) query
