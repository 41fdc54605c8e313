-- ===== src/Speech/Overlap.antt =====
-- Which overlap the merge finds.
use mentis_eterna.Prelude.{
  ℕ, zero, suc, ◌≤◌, Bool, true, false, List, length, min, ltb, Bool-cases, inl, inr, ◌⊎◌, ◌≡◌,
  refl, sym, ◌∙◌, subst, nat_beq, arith,
}
use mathlib.Core.Bool.{true≢false}
use mentis_eterna.Speech.{stt_chunk_min_overlap_words, overlaps, overlap_from, stt_merge_overlap}

module _ (to_lower : List ℕ → List ℕ) (is_letter is_digit : ℕ → Bool)
    (prev next : List (List ℕ)) where
  abbrev pub Matches : ℕ → Type 0
  Matches k = overlaps to_lower is_letter is_digit prev next k ≡ true

  -- The largest overlap of four words or more, up to a length; 0 if there is none.
  abbrev pub IsLargest : ℕ → ℕ → Type 0
  IsLargest top k =
      (k ≡ 0 ⊎ ((stt_chunk_min_overlap_words ≤ k) × (k ≤ top) × Matches k))
      × ((j : ℕ) → stt_chunk_min_overlap_words ≤ j → j ≤ top → Matches j → j ≤ k)

  not_larger :
      (top k : ℕ)
      → overlaps to_lower is_letter is_digit prev next (suc top) ≡ false
      → IsLargest top k
      → IsLargest (suc top) k
  not_larger top k differs (found, most) = (
    elim found [ inl e ↦ inl e | inr (lo, hi, m) ↦ inr (lo, omega arith, m) ],
    λ j lo hi m. elim (Bool-cases (nat_beq j (suc top))) [
      | inl e ↦
          let same : j ≡ suc top = ground arith in
          absurd (true≢false (sym (subst Matches same m) ∙ differs))
      | inr n ↦ most j lo (ground arith) m
    ],
  )

  overlap_from-IsLargest :
      (top : ℕ) → IsLargest top (overlap_from to_lower is_letter is_digit prev next top)
  unfolding overlap_from
  overlap_from-IsLargest zero = (inl refl, λ j lo hi m. omega arith)
  overlap_from-IsLargest (suc top) = elim (Bool-cases (ltb (suc top) stt_chunk_min_overlap_words)) [
    | inl small ↦ rw small (inl refl, λ j lo hi m. absurd (ground arith))
    | inr big ↦ elim (Bool-cases (overlaps to_lower is_letter is_digit prev next (suc top))) [
      | inl agrees ↦ rw big (rw agrees (inr (ground arith, omega arith, agrees), λ j lo hi m. hi))
      | inr differs ↦ rw big (
          rw differs (
            not_larger top (overlap_from to_lower is_letter is_digit prev next top) differs
              (overlap_from-IsLargest top)))
    ]
  ]

  -- The overlap of two texts is the largest number, from four on, of last words of the one that are
  -- the first words of the other in their normal form, and 0 where there is none.
  pub stt_merge_overlap-IsLargest :
      IsLargest
        (min (length prev) (length next))
        (stt_merge_overlap to_lower is_letter is_digit prev next)
  unfolding stt_merge_overlap
  stt_merge_overlap-IsLargest = overlap_from-IsLargest (min (length prev) (length next))
