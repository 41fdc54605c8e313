-- ===== src/Media/Rows.antt =====
-- What statements do to the answers of tests on rows.
use mathlib.Core.Bool.{false≢true}
use mentis_eterna.Prelude.{
  Bool, suc, ◌≤◌, ◌<◌, true, false, not, ◌&&◌, ◌||◌, List, [], ◌∷◌, ◌++◌, keep_if, Bool-cases, inl,
  inr, ◌≡◌, refl, sym, ◌∙◌, if◌then◌else◌, arith,
}
use mentis_eterna.Media.Tables.{any_of, count_of, change_where}

module _ {A : Type 0} (q : A → Bool) where
  pub any_of-append : (xs ys : List A) → any_of q (xs ++ ys) ≡ (any_of q xs || any_of q ys)
  any_of-append [] ys = refl
  any_of-append (x ∷ xs) ys = ground (arith, any_of-append xs ys)

  pub any_of-keep_if :
      (p : A → Bool) (xs : List A) → any_of q (keep_if p xs) ≡ true → any_of q xs ≡ true
  any_of-keep_if p [] h = h
  any_of-keep_if p (x ∷ xs) h = elim (Bool-cases (p x)) [
    | inl e ↦ elim (Bool-cases (q x)) [
      | inl k ↦ ground (arith, k)
      | inr k ↦
          let rest : any_of q (keep_if p xs) ≡ true = ground (arith, rw e at h, k) in
          ground (arith, any_of-keep_if p xs rest)
    ]
    | inr e ↦ ground (arith, any_of-keep_if p xs (rw e at h))
  ]

  -- What passes the test is kept.
  pub any_of-kept :
      (p : A → Bool) (xs : List A)
      → ((x : A) → q x ≡ true → p x ≡ true)
      → any_of q (keep_if p xs) ≡ any_of q xs
  any_of-kept p [] same = refl
  any_of-kept p (x ∷ xs) same = elim (Bool-cases (q x)) [
    | inl k ↦ ground (arith, same x k, k)
    | inr k ↦ ground (arith, any_of-kept p xs same, k)
  ]

  -- Nothing that passes the test is kept.
  pub any_of-dropped :
      (p : A → Bool) (xs : List A)
      → ((x : A) → q x ≡ true → p x ≡ false)
      → any_of q (keep_if p xs) ≡ false
  any_of-dropped p [] none_kept = refl
  any_of-dropped p (x ∷ xs) none_kept = elim (Bool-cases (q x)) [
    | inl k ↦ rw (none_kept x k) (any_of-dropped p xs none_kept)
    | inr k ↦ ground (arith, any_of-dropped p xs none_kept, k)
  ]

  pub any_of-change_where :
      (p : A → Bool) (f : A → A) (xs : List A)
      → ((x : A) → q (f x) ≡ q x)
      → any_of q (change_where p f xs) ≡ any_of q xs
  any_of-change_where p f [] same = refl
  any_of-change_where p f (x ∷ xs) same = ground (arith, same x, any_of-change_where p f xs same)

  any_of-changed :
      (p : A → Bool) (f : A → A) (xs : List A)
      → ((x : A) → p x ≡ true → q (f x) ≡ true → q x ≡ true)
      → any_of q (change_where p f xs) ≡ true
      → any_of q xs ≡ true
  any_of-changed p f [] less h = h
  any_of-changed p f (x ∷ xs) less h = elim (Bool-cases (q x)) [
    | inl k ↦ ground (arith, k)
    | inr k ↦
        let here : q (if p x then f x else x) ≡ false = elim (Bool-cases (p x)) [
          | inl e ↦ rw e (elim (Bool-cases (q (f x))) [
            | inl j ↦ absurd (false≢true (sym k ∙ less x e j))
            | inr j ↦ j
          ])
          | inr e ↦ rw e k
        ] in
        let rest : any_of q (change_where p f xs) ≡ true = ground (arith, h, here) in
        ground (arith, any_of-changed p f xs less rest)
  ]

  -- A change that makes no row pass the test makes the test pass of no table.
  pub any_of_not-change_where :
      (p : A → Bool) (f : A → A) (xs : List A)
      → ((x : A) → p x ≡ true → q (f x) ≡ true → q x ≡ true)
      → any_of q xs ≡ false
      → any_of q (change_where p f xs) ≡ false
  any_of_not-change_where p f xs less h = elim (Bool-cases (any_of q (change_where p f xs))) [
    | inl e ↦ absurd (false≢true (sym h ∙ any_of-changed p f xs less e))
    | inr e ↦ e
  ]

  pub any_of-weaker :
      (p : A → Bool) (xs : List A)
      → ((x : A) → q x ≡ true → p x ≡ true)
      → any_of q xs ≡ true
      → any_of p xs ≡ true
  any_of-weaker p [] less h = h
  any_of-weaker p (x ∷ xs) less h = elim (Bool-cases (q x)) [
    | inl k ↦ ground (arith, less x k)
    | inr k ↦
        let rest : any_of q xs ≡ true = ground (arith, h, k) in
        ground (arith, any_of-weaker p xs less rest)
  ]

  pub count_of-zero : (xs : List A) → count_of q xs ≡ 0 → any_of q xs ≡ false
  count_of-zero [] h = refl
  count_of-zero (x ∷ xs) h = elim (Bool-cases (q x)) [
    | inl k ↦ absurd (suc-is_not_zero (rw k at h))
    | inr k ↦ ground (arith, k, count_of-zero xs (rw k at h))
  ]
    where
      suc-is_not_zero : suc (count_of q xs) ≡ 0 → ⊥
      suc-is_not_zero e = omega arith

  count_of-keep_if : (p : A → Bool) (xs : List A) → count_of q (keep_if p xs) ≤ count_of q xs
  count_of-keep_if p [] = omega arith
  count_of-keep_if p (x ∷ xs) = ground (arith, count_of-keep_if p xs)

  -- One row fewer.
  pub count_of-dropped :
      (p : A → Bool) (xs : List A)
      → any_of (λ x. q x && not (p x)) xs ≡ true
      → count_of q (keep_if p xs) < count_of q xs
  count_of-dropped p [] h = absurd (false≢true h)
  count_of-dropped p (x ∷ xs) h = elim (Bool-cases (q x && not (p x))) [
    | inl e ↦ ground (arith, e, count_of-keep_if p xs)
    | inr e ↦
        let rest : any_of (λ y. q y && not (p y)) xs ≡ true = ground (arith, h, e) in
        ground (arith, e, count_of-dropped p xs rest)
  ]
