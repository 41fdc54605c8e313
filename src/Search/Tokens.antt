-- ===== src/Search/Tokens.antt =====
-- internal/server/search.go: nothing that a user writes is read as an operator of the full-text
-- search, since a MATCH expression has words of letters and digits alone.
use mentis_eterna.Speech.{join_words}
use mentis_eterna.Search.Query.{
  is_empty, is_separator, join_or, fts_term, fts_column_query, normalize_search_text, close_field,
  fields_func, open_field,
}
use mathlib.Core.List.{cons≢nil}
use mathlib.Core.Bool.{true≢false}
use mentis_eterna.Prelude.{
  refl, sym, ◌∙◌, ap, map, keep_if, not, ◌++◌, true, All, Bool, Bool-cases, List, [], false, inl,
  inr, ℕ, ◌∷◌, ◌≡◌, ◌≢◌,
}

abbrev pub IsToken : (ℕ → Bool) → List ℕ → Type 0
IsToken separates word = (word ≢ []) × All (λ r. separates r ≡ false) word

close_field-All :
    (separates : ℕ → Bool) (field : List ℕ) (fields : List (List ℕ))
    → All (λ r. separates r ≡ false) field
    → All (IsToken separates) fields
    → All (IsToken separates) (close_field field fields)
unfolding close_field
close_field-All separates [] fields inside tokens = tokens
close_field-All separates (r ∷ field) fields inside tokens = ((λ p. cons≢nil p, inside), tokens)

open_field-All :
    (separates : ℕ → Bool) (s : List ℕ)
    → All (λ r. separates r ≡ false) (open_field separates s).0
      × All (IsToken separates) (open_field separates s).1
unfolding open_field
open_field-All separates [] = (tt, tt)
open_field-All separates (r ∷ s) = elim (Bool-cases (separates r)) [
  | inl e ↦
      let later = open_field-All separates s in
      rw e (
        tt,
        close_field-All separates (open_field separates s).0 (open_field separates s).1 later.0
            later.1,
      )
  | inr n ↦ let later = open_field-All separates s in rw n ((n, later.0), later.1)
]

fields_func-All :
    (separates : ℕ → Bool) (s : List ℕ) → All (IsToken separates) (fields_func separates s)
unfolding fields_func
fields_func-All separates s =
    let both = open_field-All separates s in
    close_field-All separates (open_field separates s).0 (open_field separates s).1 both.0 both.1

open_field-last :
    (separates : ℕ → Bool) (word : List ℕ)
    → All (λ r. separates r ≡ false) word
    → open_field separates word ≡ (word, [])
unfolding open_field
open_field-last separates [] inside = refl
open_field-last separates (r ∷ word) inside =
    rw inside.0 (rw (open_field-last separates word inside.1) refl)

open_field-append :
    (separates : ℕ → Bool) (word : List ℕ) (r : ℕ) (s : List ℕ)
    → All (λ q. separates q ≡ false) word
    → separates r ≡ true
    → open_field separates (word ++ r ∷ s) ≡ (word, fields_func separates s)
unfolding open_field fields_func
open_field-append separates [] r s inside ends = rw ends refl
open_field-append separates (q ∷ word) r s inside ends =
    rw inside.0 (rw (open_field-append separates word r s inside.1 ends) refl)

close_field-word :
    (word : List ℕ) (fields : List (List ℕ)) → word ≢ [] → close_field word fields ≡ word ∷ fields
unfolding close_field
close_field-word [] fields n = absurd (n refl)
close_field-word (r ∷ word) fields n = refl

fields_func-join_words :
    (separates : ℕ → Bool) (words : List (List ℕ))
    → separates b' ' ≡ true
    → All (IsToken separates) words
    → fields_func separates (join_words words) ≡ words
unfolding fields_func join_words
fields_func-join_words separates [] blank tokens = refl
fields_func-join_words separates (word ∷ []) blank tokens =
    rw (open_field-last separates word tokens.0.1) (close_field-word word [] tokens.0.0)
fields_func-join_words separates (word ∷ next ∷ words) blank tokens =
    rw (open_field-append separates word b' ' (join_words (next ∷ words)) tokens.0.1 blank) (
      rw (fields_func-join_words separates (next ∷ words) blank tokens.1)
        (close_field-word word (next ∷ words) tokens.0.0))

kept_words :
    (separates : ℕ → Bool) (words : List (List ℕ))
    → All (IsToken separates) words
    → keep_if (λ tok. not (is_empty tok)) words ≡ words
kept_words separates [] tokens = refl
kept_words separates ([] ∷ words) tokens = absurd (tokens.0.0 refl)
kept_words separates ((r ∷ word) ∷ words) tokens =
    ap (λ rest. (r ∷ word) ∷ rest) (kept_words separates words tokens.1)

All-weaker :
    (p q : ℕ → Bool) (s : List ℕ)
    → ((r : ℕ) → p r ≡ true → q r ≡ true)
    → All (λ r. q r ≡ false) s
    → All (λ r. p r ≡ false) s
All-weaker p q [] weaker all = tt
All-weaker p q (r ∷ s) weaker all = (
  elim (Bool-cases (p r)) [ inl e ↦ absurd (true≢false (sym (weaker r e) ∙ all.0)) | inr n ↦ n ],
  All-weaker p q s weaker all.1,
)

IsToken-weaker :
    (p q : ℕ → Bool) (words : List (List ℕ))
    → ((r : ℕ) → p r ≡ true → q r ≡ true)
    → All (IsToken q) words
    → All (IsToken p) words
IsToken-weaker p q [] weaker tokens = tt
IsToken-weaker p q (word ∷ words) weaker tokens =
    ((tokens.0.0, All-weaker p q word weaker tokens.0.1), IsToken-weaker p q words weaker tokens.1)

module _ (to_lower trim_space : List ℕ → List ℕ) (is_space is_letter is_number : ℕ → Bool) where
  abbrev separates : ℕ → Bool
  separates = is_separator is_letter is_number

  -- The stretches of letters and numbers in the trimmed text in small letters.
  abbrev pub search_words : List ℕ → List (List ℕ)
  search_words query = fields_func (is_separator is_letter is_number) (to_lower (trim_space query))

  -- Where the blank is a space, and no space is a letter or a number, the MATCH expression of a
  -- query is made of the terms of its search words, joined by OR, in their order, and none of these
  -- words is empty or has a rune that is neither a letter nor a number.
  pub fts_column_query-IsToken :
      (query column : List ℕ)
      → is_space b' ' ≡ true
      → ((r : ℕ) → is_space r ≡ true → is_separator is_letter is_number r ≡ true)
      → (fts_column_query to_lower trim_space is_space is_letter is_number query column
          ≡ join_or (map (fts_term column) (search_words query)))
        × All (IsToken (is_separator is_letter is_number)) (search_words query)
  unfolding fts_column_query normalize_search_text
  fts_column_query-IsToken query column blank apart =
      let words = search_words query in
      let tokens : All (IsToken separates) words =
        fields_func-All separates (to_lower (trim_space query)) in
      let spaced : All (IsToken is_space) words =
        IsToken-weaker is_space separates words apart tokens in
      (
        rw (fields_func-join_words is_space words blank spaced)
            (rw (kept_words is_space words spaced) refl),
        tokens,
      )
