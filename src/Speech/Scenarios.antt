-- ===== src/Speech/Scenarios.antt =====
-- Two chunks that share four words, written differently.
use mentis_eterna.Prelude.{
  ℕ, ◌+◌, Bool, false, List, [], ◌∷◌, leb, ◌&&◌, ◌≡◌, refl, map, if◌then◌else◌,
}
use mentis_eterna.Speech.{
  normalize_word, words_match, overlap_from, stt_merge_overlap, merge_words, merge_parts,
  join_words,
}
use mentis_eterna.Speech.Overlap.{IsLargest, stt_merge_overlap-IsLargest}

abbrev lower : List ℕ → List ℕ
lower = map (λ r. if leb b'A' r && leb r b'Z' then r + 32 else r)

abbrev is_small : ℕ → Bool
is_small r = leb b'a' r && leb r b'z'

abbrev no_digit : ℕ → Bool
no_digit r = false

abbrev before : List (List ℕ)
before = (b'x' ∷ []) ∷ (b'a' ∷ []) ∷ (b'b' ∷ b',' ∷ []) ∷ (b'c' ∷ []) ∷ (b'd' ∷ []) ∷ []

abbrev after : List (List ℕ)
after = (b'A' ∷ []) ∷ (b'b' ∷ []) ∷ (b'c' ∷ []) ∷ (b'd' ∷ b'.' ∷ []) ∷ (b'e' ∷ []) ∷ []

merged :
    join_words (merge_parts lower is_small no_digit (before ∷ after ∷ []))
    ≡ b'x' ∷ b' ' ∷ b'a' ∷ b' ' ∷ b'b' ∷ b',' ∷ b' ' ∷ b'c' ∷ b' ' ∷ b'd' ∷ b' ' ∷ b'e' ∷ []
unfolding join_words merge_words stt_merge_overlap overlap_from words_match normalize_word
merged = refl

stt_merge_overlap-IsLargest_example :
    IsLargest lower is_small no_digit before after 5
      (stt_merge_overlap lower is_small no_digit before after)
stt_merge_overlap-IsLargest_example =
    stt_merge_overlap-IsLargest lower is_small no_digit before after
