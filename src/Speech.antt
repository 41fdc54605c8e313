-- ===== src/Speech.antt =====
-- The merging of transcripts in internal/media/sttchunk.go: the recording is cut into overlapping
-- chunks, whose texts may repeat some words. A word is the list of its runes.
pub mod Overlap
mod Scenarios
use mentis_eterna.Prelude.{
  ℕ, zero, suc, ◌-◌, Bool, true, false, ◌&&◌, ◌||◌, List, [], ◌∷◌, ◌++◌, keep_if, length, take,
  drop, min, ltb, nat_beq, if◌then◌else◌,
}

abbrev pub stt_chunk_min_overlap_words : ℕ
stt_chunk_min_overlap_words = 4

abbrev pub is_same_text : List ℕ → List ℕ → Bool
is_same_text [] [] = true
is_same_text (r ∷ s) (q ∷ t) = nat_beq r q && is_same_text s t
is_same_text _ _ = false

-- `strings.Join(words, " ")`.
unfoldable pub join_words : List (List ℕ) → List ℕ
join_words [] = []
join_words (w ∷ []) = w
join_words (w ∷ v ∷ words) = w ++ b' ' ∷ join_words (v ∷ words)

-- `strings.ToLower`, `unicode.IsLetter` and `unicode.IsDigit`, which know all of Unicode.
module _ (to_lower : List ℕ → List ℕ) (is_letter is_digit : ℕ → Bool) where
  unfoldable pub normalize_word : List ℕ → List ℕ
  normalize_word w = keep_if (λ r. is_letter r || is_digit r) (to_lower w)

  -- The loop over `j`, which ends at the first pair that differs.
  unfoldable pub words_match : List (List ℕ) → List (List ℕ) → Bool
  unfolding normalize_word
  words_match (v ∷ prev) (w ∷ next) =
      is_same_text (normalize_word v) (normalize_word w) && words_match prev next
  words_match _ _ = true

  -- Whether the last `k` words of the one are the first `k` of the other.
  abbrev pub overlaps : List (List ℕ) → List (List ℕ) → ℕ → Bool
  overlaps prev next k = words_match (drop (length prev - k) prev) (take k next)

  -- The loop over `k`, from above.
  unfoldable pub overlap_from : List (List ℕ) → List (List ℕ) → ℕ → ℕ
  unfolding words_match
  overlap_from prev next zero = 0
  overlap_from prev next (suc k) =
      let lower = overlap_from prev next k in
      if ltb (suc k) stt_chunk_min_overlap_words
      then 0
      else if overlaps prev next (suc k)
      then suc k
      else lower

  unfoldable pub stt_merge_overlap : List (List ℕ) → List (List ℕ) → ℕ
  unfolding overlap_from
  stt_merge_overlap prev next = overlap_from prev next (min (length prev) (length next))

  unfoldable pub merge_words : List (List ℕ) → List (List (List ℕ)) → List (List ℕ)
  unfolding stt_merge_overlap
  merge_words words [] = words
  merge_words words (next ∷ parts) =
      merge_words (words ++ drop (stt_merge_overlap words next) next) parts

  -- The first part is taken whole.
  abbrev pub merge_parts : List (List (List ℕ)) → List (List ℕ)
  merge_parts [] = []
  merge_parts (first ∷ parts) = merge_words first parts

  abbrev words_of : (List ℕ → List (List ℕ)) → List (List ℕ) → List (List (List ℕ))
  words_of fields [] = []
  words_of fields (part ∷ parts) = fields part ∷ words_of fields parts

  -- `fields` is `strings.Fields`.
  unfoldable pub merge_transcriptions : (List ℕ → List (List ℕ)) → List (List ℕ) → List ℕ
  unfolding join_words merge_words
  merge_transcriptions fields parts = join_words (merge_parts (words_of fields parts))
