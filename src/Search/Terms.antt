-- ===== src/Search/Terms.antt =====
-- Parsing ends, and gives proper terms (backend/app/services/search_query.py).
use yarrow.Prelude.{
  ℕ, zero, suc, ◌≤◌, ◌≡◌, refl, ap, sym, ◌∙◌, subst, Bool, true, false, not, ◌&&◌, Option, none,
  some, List, [], ◌∷◌, ltb, if◌then◌else◌, or_else, length, all, All, arith, Bool-cases, inl, inr,
}
use yarrow.Search.Parse.{
  Term, is_blank, is_quote, ends_word, skip_blanks, until_quote, word_at, after_word, cons_word,
  phrase, cons_term, cut, split_words, next_term, parse_terms, parse_query,
}

-- A word of a quoted phrase, and one outside of quotes.
abbrev pub is_phrase_word : (ℕ → Bool) → List ℕ → Bool
is_phrase_word is_space word = ltb 0 (length word) && all (λ c. not (is_space c)) word

abbrev pub is_plain_word : List ℕ → Bool
is_plain_word word = ltb 0 (length word) && all (λ c. not (ends_word c)) word

abbrev pub is_one_word : List (List ℕ) → Bool
is_one_word (word ∷ []) = is_plain_word word
is_one_word _ = false

unfoldable pub is_proper : (ℕ → Bool) → Term → Bool
is_proper is_space term =
    if term.quoted
    then ltb 0 (length term.words) && all (is_phrase_word is_space) term.words
    else is_one_word term.words

skip_blanks-length : (text : List ℕ) → length (skip_blanks text) ≤ length text
skip_blanks-length [] = omega arith
skip_blanks-length (c ∷ text) = elim (Bool-cases (is_blank c)) [
  | inl blank ↦ rw blank (omega (arith, skip_blanks-length text))
  | inr other ↦ rw other (omega arith)
]

until_quote-length : (text : List ℕ) → length (or_else (until_quote text).1 []) ≤ length text
until_quote-length [] = omega arith
until_quote-length (c ∷ text) = elim (Bool-cases (is_quote c)) [
  | inl quote ↦ rw quote (omega arith)
  | inr other ↦ rw other (omega (arith, until_quote-length text))
]

after_word-length : (text : List ℕ) → length (after_word text) ≤ length text
after_word-length [] = omega arith
after_word-length (c ∷ text) = elim (Bool-cases (ends_word c)) [
  | inl ends ↦ rw ends (omega arith)
  | inr goes_on ↦ rw goes_on (omega (arith, after_word-length text))
]

word_at-plain : (text : List ℕ) → all (λ c. not (ends_word c)) (word_at text) ≡ true
word_at-plain [] = refl
word_at-plain (c ∷ text) = elim (Bool-cases (ends_word c)) [
  | inl ends ↦ rw ends refl
  | inr goes_on ↦ rw (goes_on, goes_on) (word_at-plain text)
]

-- What is left after blanks begins with none.
skip_blanks-first :
    (text : List ℕ) (c : ℕ) (rest : List ℕ) → skip_blanks text ≡ c ∷ rest → is_blank c ≡ false
skip_blanks-first [] c rest h = absurd (cc h)
skip_blanks-first (d ∷ text) c rest h = elim (Bool-cases (is_blank d)) [
  | inl blank ↦ skip_blanks-first text c rest (rw blank at h)
  | inr other ↦ let same : d ≡ c = cc (rw other at h) in ap is_blank (sym same) ∙ other
]

module _ (is_space : ℕ → Bool) where
  cons_word-all :
      (word : List ℕ) (words : List (List ℕ))
      → all (λ c. not (is_space c)) word ≡ true
      → all (is_phrase_word is_space) words ≡ true
      → all (is_phrase_word is_space) (cons_word word words) ≡ true
  cons_word-all [] words h k = k
  cons_word-all (c ∷ word) words h k =
      let some_char : ltb 0 (length (c ∷ word)) ≡ true = ground arith in rw (some_char, h) k

  cut-all :
      (text : List ℕ)
      → (all (λ c. not (is_space c)) (cut is_space text).0 ≡ true)
        × (all (is_phrase_word is_space) (cut is_space text).1 ≡ true)
  cut-all [] = (refl, refl)
  cut-all (c ∷ text) =
      let (word, words) = cut-all text in
      elim (Bool-cases (is_space c)) [
        | inl space ↦
            rw space (refl, cons_word-all (cut is_space text).0 (cut is_space text).1 word words)
        | inr other ↦ rw (other, other) (word, words)
      ]

  -- A term if there is one.
  IsProper : Option Term → Type 0
  IsProper none = Unit
  IsProper (some term) = is_proper is_space term ≡ true

  phrase-IsProper :
      (words : List (List ℕ)) → all (is_phrase_word is_space) words ≡ true → IsProper (phrase words)
  unfolding IsProper is_proper
  phrase-IsProper [] h = tt
  phrase-IsProper (word ∷ words) h =
      let some_word : ltb 0 (length (word ∷ words)) ≡ true = ground arith in rw some_word h

  next_term-IsProper :
      (c : ℕ) (text : List ℕ)
      → is_blank c ≡ false
      → IsProper (next_term is_space c text).0
        × (length (next_term is_space c text).1 ≤ length text)
  unfolding next_term split_words IsProper is_proper
  next_term-IsProper c text plain = elim (Bool-cases (is_quote c)) [
    | inl quote ↦
        let segment = (until_quote text).0 in
        let (word, words) = cut-all segment in
        rw quote (
          phrase-IsProper _
              (cons_word-all (cut is_space segment).0 (cut is_space segment).1 word words),
          until_quote-length text,
        )
    | inr other ↦
        let goes_on : ends_word c ≡ false = rw (plain, other) refl in
        let some_char : ltb 0 (length (c ∷ word_at text)) ≡ true = ground arith in
        rw other ((rw (some_char, goes_on) (word_at-plain text)), after_word-length text)
  ]

  cons_term-All :
      (term : Option Term) (parsed : Option (List Term)) (terms : List Term)
      → IsProper term
      → parsed ≡ some terms
      → All (λ t. is_proper is_space t ≡ true) terms
      → (all_terms : List Term) × (cons_term term parsed ≡ some all_terms)
        × All (λ t. is_proper is_space t ≡ true) all_terms
  unfolding IsProper
  cons_term-All none parsed terms h found proper = (terms, rw found refl, proper)
  cons_term-All (some term) parsed terms h found proper = (term ∷ terms, rw found refl, (h, proper))

  Ends : ℕ → List ℕ → Type 0
  Ends turns text =
      (terms : List Term) × (parse_terms is_space turns text ≡ some terms)
      × All (λ t. is_proper is_space t ≡ true) terms

  turn-Ends :
      (turns : ℕ) (text rest : List ℕ)
      → length text ≤ suc turns
      → ((left : List ℕ) → length left ≤ turns → Ends turns left)
      → skip_blanks text ≡ rest
      → Ends (suc turns) text
  unfolding Ends parse_terms
  turn-Ends turns text [] h further found = ([], rw (found, parse_terms) refl, tt)
  turn-Ends turns text (c ∷ rest) h further found =
      let (proper, shorter) = next_term-IsProper c rest (skip_blanks-first text c rest found) in
      let fits : length (c ∷ rest) ≤ length text =
        subst (λ r. length r ≤ length text) found (skip_blanks-length text) in
      let (terms, parsed, all_proper) =
        further (next_term is_space c rest).1 (omega (arith, h, shorter, fits)) in
      let (all_terms, listed, good) =
        cons_term-All (next_term is_space c rest).0 _ terms proper parsed all_proper in
      (all_terms, rw (found, parse_terms) listed, good)

  parse_terms-Ends : (turns : ℕ) (text : List ℕ) → length text ≤ turns → Ends turns text
  unfolding Ends parse_terms
  parse_terms-Ends zero [] h = ([], refl, tt)
  parse_terms-Ends zero (c ∷ text) h = absurd (omega (arith, h))
  parse_terms-Ends (suc turns) text h =
      turn-Ends turns text (skip_blanks text) h (λ left fits. parse_terms-Ends turns left fits) refl

  -- Parsing ends within as many turns as the normalized text has characters, and each term is
  -- either one word outside of quotes, without blanks and quotes, or a phrase of at least one word,
  -- each with a character and without white space.
  pub parse_query-ends :
      (normalize : List ℕ → List ℕ) (raw : List ℕ)
      → (terms : List Term) × (parse_query is_space normalize (length (normalize raw)) raw
          ≡ some terms)
        × All (λ t. is_proper is_space t ≡ true) terms
  unfolding parse_query Ends
  parse_query-ends normalize raw =
      parse_terms-Ends (length (normalize raw)) (normalize raw) (omega arith)
