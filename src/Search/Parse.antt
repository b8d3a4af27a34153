-- ===== src/Search/Parse.antt =====
-- `parse_query`: the terms of a query (backend/app/services/search_query.py). A text is the list of
-- its characters' numbers. The Unicode normalization and the stripping are the argument `normalize`,
-- and `is_space` is what `str.split` separates at.
use yarrow.Prelude.{
  ℕ, zero, suc, Bool, true, false, ◌||◌, Option, none, some, List, [], ◌∷◌, ◌==◌, if◌then◌else◌,
  or_else,
}

pub record Term : Type 0 where
  pub words : List (List ℕ)
  pub quoted : Bool

-- `" \t\r\n"`
abbrev pub is_blank : ℕ → Bool
is_blank c = c == 32 || c == 9 || c == 13 || c == 10

abbrev pub is_quote : ℕ → Bool
is_quote c = c == 34

abbrev pub ends_word : ℕ → Bool
ends_word c = is_blank c || is_quote c

abbrev pub skip_blanks : List ℕ → List ℕ
skip_blanks [] = []
skip_blanks (c ∷ text) = if is_blank c then skip_blanks text else c ∷ text

-- The text before the next quote, and the text behind it if there is one.
abbrev pub until_quote : List ℕ → List ℕ × Option (List ℕ)
until_quote [] = ([], none)
until_quote (c ∷ text) =
    let (segment, behind) = until_quote text in
    if is_quote c then ([], some text) else (c ∷ segment, behind)

abbrev pub word_at : List ℕ → List ℕ
word_at [] = []
word_at (c ∷ text) = if ends_word c then [] else c ∷ word_at text

abbrev pub after_word : List ℕ → List ℕ
after_word [] = []
after_word (c ∷ text) = if ends_word c then c ∷ text else after_word text

abbrev pub cons_word : List ℕ → List (List ℕ) → List (List ℕ)
cons_word [] words = words
cons_word (c ∷ word) words = (c ∷ word) ∷ words

abbrev pub phrase : List (List ℕ) → Option Term
phrase [] = none
phrase (word ∷ words) = some (record { words = word ∷ words; quoted = true })

abbrev pub cons_term : Option Term → Option (List Term) → Option (List Term)
cons_term term none = none
cons_term none (some terms) = some terms
cons_term (some term) (some terms) = some (term ∷ terms)

module _ (is_space : ℕ → Bool) where
  -- The word that a text begins with, and the words after it.
  abbrev pub cut : List ℕ → List ℕ × List (List ℕ)
  cut [] = ([], [])
  cut (c ∷ text) =
      let (word, words) = cut text in
      if is_space c then ([], cons_word word words) else (c ∷ word, words)

  -- `str.split()`, which gives no empty word.
  unfoldable pub split_words : List ℕ → List (List ℕ)
  split_words text = let (word, words) = cut text in cons_word word words

  -- One turn of the loop at a character that is no blank: a term, and the text that is left.
  unfoldable pub next_term : ℕ → List ℕ → Option Term × List ℕ
  next_term c text =
      let (segment, behind) = until_quote text in
      if is_quote c
      then (phrase (split_words segment), or_else behind [])
      else (some (record { words = (c ∷ word_at text) ∷ []; quoted = false }), after_word text)

  -- With a bound on the turns; `none` when it is too small.
  unfoldable pub parse_terms : ℕ → List ℕ → Option (List Term)
  parse_terms zero [] = some []
  parse_terms zero (c ∷ text) = none
  parse_terms (suc turns) text = elim (skip_blanks text) [
    | [] ↦ some []
    | c ∷ rest ↦ let (term, left) = next_term c rest in cons_term term (parse_terms turns left)
  ]

  unfoldable pub parse_query : (List ℕ → List ℕ) → ℕ → List ℕ → Option (List Term)
  parse_query normalize turns raw = parse_terms turns (normalize raw)
