-- ===== src/Search/Query.antt =====
-- The MATCH expression of a query, in internal/server/search.go, and the words it is made of.
use mentis_eterna.Speech.{join_words}
use mentis_eterna.Prelude.{
  Bool, List, [], false, if◌then◌else◌, keep_if, map, not, true, ℕ, ◌++◌, ◌||◌, ◌∷◌,
}

-- The end of a field, which is none where it is empty.
unfoldable pub close_field : List ℕ → List (List ℕ) → List (List ℕ)
close_field [] fields = fields
close_field (r ∷ field) fields = (r ∷ field) ∷ fields

-- The field that is open at the start of a text, and the fields after it.
unfoldable pub open_field : (ℕ → Bool) → List ℕ → List ℕ × List (List ℕ)
unfolding close_field
open_field separates [] = ([], [])
open_field separates (r ∷ s) =
    let later = open_field separates s in
    if separates r then ([], close_field later.0 later.1) else (r ∷ later.0, later.1)

-- `strings.FieldsFunc`, which is `strings.Fields` for the test of a space.
unfoldable pub fields_func : (ℕ → Bool) → List ℕ → List (List ℕ)
unfolding close_field open_field
fields_func separates s = close_field (open_field separates s).0 (open_field separates s).1

-- `strings.Join(parts, " OR ")`.
unfoldable pub join_or : List (List ℕ) → List ℕ
join_or [] = []
join_or (part ∷ []) = part
join_or (part ∷ next ∷ parts) = part ++ b' ' ∷ b'O' ∷ b'R' ∷ b' ' ∷ join_or (next ∷ parts)

abbrev pub is_empty : List ℕ → Bool
is_empty [] = true
is_empty (r ∷ s) = false

-- `column:tok*`, which asks for the words with a prefix.
unfoldable pub fts_term : List ℕ → List ℕ → List ℕ
fts_term column tok = column ++ b':' ∷ tok ++ b'*' ∷ []

-- The runes that are neither letters nor numbers.
abbrev pub is_separator : (ℕ → Bool) → (ℕ → Bool) → ℕ → Bool
is_separator is_letter is_number r = not (is_letter r || is_number r)

-- `strings.ToLower` after `strings.TrimSpace`, and the tests of `unicode`, which know all of it.
module _ (to_lower trim_space : List ℕ → List ℕ) (is_space is_letter is_number : ℕ → Bool) where
  -- An empty text has no fields, so that the early return gives the same.
  unfoldable pub normalize_search_text : List ℕ → List ℕ
  unfolding fields_func join_words
  normalize_search_text s =
      join_words (fields_func (is_separator is_letter is_number) (to_lower (trim_space s)))

  -- Without a token, as in the early returns, the parts join to the empty text.
  unfoldable pub fts_column_query : List ℕ → List ℕ → List ℕ
  unfolding fields_func normalize_search_text join_or fts_term
  fts_column_query query column = join_or (
      map (fts_term column)
        (keep_if (λ tok. not (is_empty tok)) (fields_func is_space (normalize_search_text query))))
