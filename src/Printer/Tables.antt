-- ===== src/Printer/Tables.antt =====
-- Checks of a table of characters by evaluation, and what they say of a lookup.
use mentis_eterna.Prelude.{
  ℕ, Bool, true, not, ◌&&◌, some, [], ◌∷◌, ◌≡◌, sym, ◌∙◌, ap, Bool-cases, inl, inr, nat_beq,
  nat_beq_iff, nat_key, arith,
}
use mentis_eterna.Prelude.Maps.{Map, lookup}

unfoldable pub holds_all : (ℕ → ℕ → Bool) → Map ℕ ℕ → Bool
holds_all test [] = true
holds_all test ((r, b) ∷ m) = test r b && holds_all test m

pub holds_all-lookup :
    (test : ℕ → ℕ → Bool) (m : Map ℕ ℕ) (r b : ℕ)
    → holds_all test m ≡ true
    → lookup r m ≡ some b
    → test r b ≡ true
unfolding holds_all lookup
holds_all-lookup test [] r b h e = cc
holds_all-lookup test ((q, c) ∷ m) r b h e = elim (Bool-cases (nat_beq q r)) [
  | inl same ↦
      let p : q ≡ r = (nat_beq_iff q r).0 same in
      let v : c ≡ b = ground arith in
      let t : test q c ≡ true = ground arith in ap (λ x. test x b) (sym p) ∙ ap (test q) (sym v) ∙ t
  | inr other ↦ holds_all-lookup test m r b (ground arith) (ground arith)
]

-- No two entries have the same value.
unfoldable pub values_apart : Map ℕ ℕ → Bool
values_apart [] = true
values_apart ((r, b) ∷ m) = holds_all (λ _ c. not (nat_beq b c)) m && values_apart m

pub lookup_injective :
    (m : Map ℕ ℕ) (r q b : ℕ)
    → values_apart m ≡ true
    → lookup r m ≡ some b
    → lookup q m ≡ some b
    → r ≡ q
unfolding lookup values_apart
lookup_injective [] r q b h e k = cc
lookup_injective ((i, c) ∷ m) r q b h e k =
    let apart : holds_all (λ _ v. not (nat_beq c v)) m ≡ true = ground arith in
    let rest : values_apart m ≡ true = ground arith in
    elim (Bool-cases (nat_beq i r)) [
      | inl ir ↦ elim (Bool-cases (nat_beq i q)) [
        | inl iq ↦ ground arith
        | inr nq ↦
            let t = holds_all-lookup (λ _ v. not (nat_beq c v)) m q b apart (ground arith) in
            absurd (ground (arith, t))
      ]
      | inr nr ↦ elim (Bool-cases (nat_beq i q)) [
        | inl iq ↦
            let t = holds_all-lookup (λ _ v. not (nat_beq c v)) m r b apart (ground arith) in
            absurd (ground (arith, t))
        | inr nq ↦ lookup_injective m r q b rest (ground arith) (ground arith)
      ]
    ]
