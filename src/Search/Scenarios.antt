-- ===== src/Search/Scenarios.antt =====
-- Queries for which the theorems on the scorer of internal/server/search.go hold.
use mentis_eterna.Prelude.{
  ◌≢◌, All, Bool, List, [], arith, false, if◌then◌else◌, leb, map, nat_beq, refl, subst, sym, true,
  ℕ, ◌&&◌, ◌+◌, ◌↔◌, ◌∷◌, ◌≡◌,
}
use mentis_eterna.Search.Query.{fts_column_query, fts_term, is_separator, join_or}
use mentis_eterna.Search.Tokens.{IsToken, fts_column_query-IsToken, search_words}
use mentis_eterna.Search.{is_subsequence}
use mentis_eterna.Search.Subsequence.{IsWithin, is_subsequence-IsWithin}

-- "nte" occurs in "note" in this order, and "en" does not.
found_in_order : is_subsequence (b'n' ∷ b't' ∷ b'e' ∷ []) (b'n' ∷ b'o' ∷ b't' ∷ b'e' ∷ []) ≡ true
unfolding is_subsequence
found_in_order = refl

not_out_of_order : is_subsequence (b'e' ∷ b'n' ∷ []) (b'n' ∷ b'o' ∷ b't' ∷ b'e' ∷ []) ≡ false
unfolding is_subsequence
not_out_of_order = refl

is_subsequence-IsWithin_example :
    (is_subsequence (b'n' ∷ b'e' ∷ []) (b'n' ∷ b'o' ∷ b'e' ∷ []) ≡ true) ↔ (
      (◌≢◌ {A = List ℕ} (b'n' ∷ b'e' ∷ []) [])
      × IsWithin (b'n' ∷ b'e' ∷ []) (b'n' ∷ b'o' ∷ b'e' ∷ []))
is_subsequence-IsWithin_example =
    is_subsequence-IsWithin (b'n' ∷ b'e' ∷ []) (b'n' ∷ b'o' ∷ b'e' ∷ [])

-- The tables of Unicode as far as ASCII.
abbrev lower : List ℕ → List ℕ
lower = map (λ r. if leb b'A' r && leb r b'Z' then r + 32 else r)

abbrev is_blank : ℕ → Bool
is_blank r = nat_beq r b' '

abbrev is_small : ℕ → Bool
is_small r = leb b'a' r && leb r b'z'

abbrev is_digit : ℕ → Bool
is_digit r = leb b'0' r && leb r b'9'

abbrev same_text : List ℕ → List ℕ
same_text s = s

-- `Rye-5"*`, whose hyphen, quote and star are dropped.
abbrev with_signs : List ℕ
with_signs = b'R' ∷ b'y' ∷ b'e' ∷ b'-' ∷ b'5' ∷ 34 ∷ b'*' ∷ []

-- `t:rye* OR t:5*`.
signs_are_dropped :
    fts_column_query lower same_text is_blank is_small is_digit with_signs (b't' ∷ [])
    ≡ b't' ∷ b':' ∷ b'r' ∷ b'y' ∷ b'e' ∷ b'*' ∷ b' ' ∷ b'O' ∷ b'R' ∷ b' ' ∷ b't' ∷ b':' ∷ b'5'
      ∷ b'*' ∷ []
unfolding fts_column_query
signs_are_dropped = refl

blank_is_sign : (r : ℕ) → is_blank r ≡ true → is_separator is_small is_digit r ≡ true
blank_is_sign r h =
    let e : r ≡ b' ' = ground arith in
    subst (λ q. is_separator is_small is_digit q ≡ true) (sym e) refl

fts_column_query-IsToken_example :
    (fts_column_query lower same_text is_blank is_small is_digit with_signs (b't' ∷ [])
      ≡ join_or (
          map
            (fts_term (b't' ∷ []))
            (search_words lower same_text is_blank is_small is_digit with_signs)))
    × All
        (IsToken (is_separator is_small is_digit))
        (search_words lower same_text is_blank is_small is_digit with_signs)
fts_column_query-IsToken_example =
    fts_column_query-IsToken lower same_text is_blank is_small is_digit with_signs (b't' ∷ []) refl
      blank_is_sign
