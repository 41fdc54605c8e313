-- ===== src/Printer/Fit.antt =====
-- What the text helpers do to the width.
use mathlib.Core.List.{append-nil}
use mentis_eterna.Prelude.{
  ℕ, zero, suc, ◌+◌, ◌-◌, ◌/◌, ◌≤◌, ◌<◌, min, max, List, [], ◌∷◌, ◌++◌, length, take, replicate,
  length-append, length-take, length-replicate, leb, nat_beq, Bool-cases, inl, inr, ◌⊎◌, ◌≡◌, refl,
  sym, ap, ◌∙◌, arith,
}
use mentis_eterna.Printer.Layout.{
  text_width, truncate_width, ellipsis, truncate_with_ellipsis, pad_right, pad_center,
}

module _ (s : List ℕ) (width : ℕ) (pos : 0 < width) where
  ellipsis_fits : length s ≤ width → truncate_with_ellipsis s width ≡ s
  unfolding truncate_with_ellipsis
  ellipsis_fits h = ground arith

  ellipsis_wide :
      width < length s → truncate_with_ellipsis s width ≡ take (width - 1) s ++ ellipsis ∷ []
  unfolding truncate_with_ellipsis
  ellipsis_wide h = elim (Bool-cases (nat_beq width 1)) [
    | inl one ↦
        let w : 0 ≡ width - 1 = ground arith in
        ground (arith, ap (λ n. take n s ++ ellipsis ∷ []) w)
    | inr more ↦ ground arith
  ]

  text_width-ellipsis_wide :
      width < length s → text_width (take (width - 1) s ++ ellipsis ∷ []) ≡ width
  text_width-ellipsis_wide h =
      omega (arith, length-append (take (width - 1) s) (ellipsis ∷ []), length-take (width - 1) s)

text_width-truncate_width :
    (s : List ℕ) (width : ℕ) → text_width (truncate_width s width) ≡ min width (text_width s)
unfolding truncate_width
text_width-truncate_width s width = ground (arith, length-take width s)

abbrev pub Shortens : List ℕ → ℕ → Type 0
Shortens s width =
    (text_width (truncate_with_ellipsis s width) ≡ min width (text_width s))
    × ((truncate_with_ellipsis s width ≡ s)
        ⊎ (width ≡ 0)
        ⊎ (truncate_with_ellipsis s width ≡ take (width - 1) s ++ ellipsis ∷ []))

shortens : (s : List ℕ) (width : ℕ) → Shortens s width
unfolding truncate_with_ellipsis
shortens s zero = (omega arith, inr (inl refl))
shortens s (suc w) = elim (Bool-cases (leb (length s) (suc w))) [
  | inl e ↦
      let same = ellipsis_fits s (suc w) (omega arith) (ground arith) in
      (ap length same ∙ ground arith, inl same)
  | inr e ↦
      let same = ellipsis_wide s (suc w) (omega arith) (ground arith) in
      (
        ap length same
            ∙ text_width-ellipsis_wide s (suc w) (omega arith) (ground arith)
            ∙ ground arith,
        inr (inr same),
      )
]

-- A truncated text is exactly as wide as the text, or as the limit where the text is wider, with an
-- ellipsis or without; with one, a text that is too wide keeps all but the last place.
truncate_fits :
    (s : List ℕ) (width : ℕ)
    → (text_width (truncate_width s width) ≡ min width (text_width s)) × Shortens s width
truncate_fits s width = (text_width-truncate_width s width, shortens s width)

module _ (s : List ℕ) (width : ℕ) where
  abbrev blanks : ℕ
  blanks = width - length s

  text_width-pad_right : text_width (pad_right s width) ≡ max width (text_width s)
  unfolding pad_right
  text_width-pad_right =
      ground (arith, length-append s (replicate blanks b' '), length-replicate {A = ℕ} blanks b' ')

  centered : ℕ → ℕ → List ℕ
  centered left right = replicate left b' ' ++ (s ++ replicate right b' ')

  text_width-centered :
      (left right : ℕ) → text_width (centered left right) ≡ left + length s + right
  unfolding centered
  text_width-centered left right = omega (
    arith,
    length-append (replicate left b' ') (s ++ replicate right b' '),
    length-append s (replicate right b' '),
    length-replicate {A = ℕ} left b' ',
    length-replicate {A = ℕ} right b' ',
  )

  -- The blanks on the left and on the right of a centred text.
  pad_center-centered :
      (left : ℕ) × (right : ℕ) × (pad_center s width ≡ centered left right)
      × (left ≤ right)
      × (right ≤ left + 1)
      × (left + length s + right ≡ max width (length s))
  unfolding pad_center centered
  pad_center-centered = elim (Bool-cases (leb width (length s))) [
    | inl e ↦ (0, 0, rw e (sym (append-nil s)), omega arith, omega arith, ground arith)
    | inr e ↦ (blanks / 2, blanks - blanks / 2, rw e refl, omega arith, omega arith, ground arith)
  ]

-- Padding widens a text to the given width with blanks, and leaves a wider one alone. Centred, the
-- blanks on the right are as many as on the left or one more.
pad_fits :
    (s : List ℕ) (width : ℕ)
    → (text_width (pad_right s width) ≡ max width (text_width s))
      × (text_width (pad_center s width) ≡ max width (text_width s))
      × ((left : ℕ) × (right : ℕ) × (pad_center s width
            ≡ replicate left b' ' ++ (s ++ replicate right b' '))
          × (left ≤ right)
          × (right ≤ left + 1))
unfolding centered
pad_fits s width =
    let (left, right, e, lo, hi, w) = pad_center-centered s width in
    (
      text_width-pad_right s width,
      ap length e ∙ text_width-centered s width left right ∙ w,
      (left, right, e, lo, hi),
    )
