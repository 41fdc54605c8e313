-- ===== src/Uploads/Counting.antt =====
-- How many indexes there can be: a list of distinct indexes below a number that has them all
-- is as long as that number.
use mentis_eterna.Prelude.{
  ℕ, zero, suc, ◌+◌, ◌≤◌, ◌<◌, true, false, List, [], ◌∷◌, All, length, Bool-cases, inl, inr, ◌≡◌,
  refl, sym, ◌∙◌, ◌==◌, nat_key, if◌then◌else◌, arith,
}
use mentis_eterna.Uploads.Sessions.{has_index}
use mentis_eterna.Uploads.Sound.{Distinct}

-- How often an index occurs.
unfoldable times : ℕ → List ℕ → ℕ
times i [] = 0
times i (j ∷ is) = let rest = times i is in if j == i then suc rest else rest

-- How many indexes below a number occur, each as often as it does.
unfoldable below : ℕ → List ℕ → ℕ
unfolding times
below zero is = 0
below (suc n) is = below n is + times n is

times-absent : (i : ℕ) (is : List ℕ) → has_index i is ≡ false → times i is ≡ 0
unfolding times
times-absent i [] h = refl
times-absent i (j ∷ is) h =
    let rest : has_index i is ≡ false = ground (arith, h) in
    ground (arith, h, times-absent i is rest)

times-Distinct :
    (i : ℕ) (is : List ℕ) → Distinct is → times i is ≡ (if has_index i is then 1 else 0)
unfolding times
times-Distinct i [] d = refl
times-Distinct i (j ∷ is) d = elim (Bool-cases (j == i)) [
  | inl e ↦
      let same : j ≡ i = ground (arith, e) in
      let absent : times i is ≡ 0 = times-absent i is (rw same at d.0) in ground (arith, e, absent)
  | inr e ↦ ground (arith, e, times-Distinct i is d.1)
]

below-cons_less : (n j : ℕ) (is : List ℕ) → n ≤ j → below n (j ∷ is) ≡ below n is
unfolding below times
below-cons_less zero j is le = refl
below-cons_less (suc n) j is le = ground (arith, below-cons_less n j is (omega arith))

below-cons : (n j : ℕ) (is : List ℕ) → j < n → below n (j ∷ is) ≡ suc (below n is)
unfolding below times
below-cons zero j is lt = omega arith
below-cons (suc n) j is lt = elim (Bool-cases (j == n)) [
  | inl e ↦
      let same : j ≡ n = ground (arith, e) in
      ground (arith, e, below-cons_less n j is (omega arith))
  | inr e ↦ ground (arith, e, below-cons n j is (ground (arith, e)))
]

below-nil : (n : ℕ) → below n [] ≡ 0
unfolding below times
below-nil zero = refl
below-nil (suc n) = omega (arith, below-nil n)

below-length : (n : ℕ) (is : List ℕ) → All (λ i. i < n) is → below n is ≡ length is
below-length n [] h = below-nil n
below-length n (i ∷ is) h = omega (arith, below-cons n i is h.0, below-length n is h.1)

below-full :
    (n : ℕ) (is : List ℕ) → Distinct is → ((i : ℕ) → i < n → has_index i is ≡ true) → below n is ≡ n
unfolding below
below-full zero is d h = refl
below-full (suc n) is d h =
    ground (
      arith,
      below-full n is d (λ i lt. h i (omega arith)),
      times-Distinct n is d,
      h n (omega arith),
    )

pub length-Distinct :
    (n : ℕ) (is : List ℕ)
    → Distinct is
    → All (λ i. i < n) is
    → ((i : ℕ) → i < n → has_index i is ≡ true)
    → length is ≡ n
length-Distinct n is d r h = sym (below-length n is r) ∙ below-full n is d h
