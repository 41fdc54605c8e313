-- ===== src/Prelude/Tests.antt =====
-- Boolean tests, the conditional, and equality as an interface.
use Prim.Native.Nat.{ℕ, zero, suc, ◌+◌, ◌≤◌, ◌<◌, compare, Ordering}
use Prim.Native.String.{String}
use mathlib.Core.Path.{◌≡◌, refl, subst}
use mathlib.Core.Logic.{◌≢◌, ◌↔◌, ◌⊎◌, inl, inr}
use mathlib.Core.Bool.{Bool, true, false, ◌&&◌}
use mathlib.Core.Option.{Option, none, some}
use native.Mathlib.Omega.{arith}
use text.Mathlib.Text.{◌==◌ as str_eq}
use text.Mathlib.TextEquality.{eq_iff}

abbrev pub ltb : ℕ → ℕ → Bool
ltb a b = elim (compare a b) [ Ordering.lt ↦ true | _ ↦ false ]

abbrev pub leb : ℕ → ℕ → Bool
leb a b = elim (compare a b) [ Ordering.gt ↦ false | _ ↦ true ]

abbrev pub nat_beq : ℕ → ℕ → Bool
nat_beq a b = elim (compare a b) [ Ordering.eq ↦ true | _ ↦ false ]

infix 1 if◌then◌else◌
abbrev pub if◌then◌else◌ {ℓ} : {A : Type ℓ} → Bool → A → A → A
if true then x else y = x
if false then x else y = y

pub ltb→lt : (a b : ℕ) → ltb a b ≡ true → a < b
ltb→lt a b h = ground arith

pub ltb→ge : (a b : ℕ) → ltb a b ≡ false → b ≤ a
ltb→ge a b h = ground arith

pub leb→le : (a b : ℕ) → leb a b ≡ true → a ≤ b
leb→le a b h = ground arith

pub nat_beq_iff : (a b : ℕ) → (nat_beq a b ≡ true) ↔ (a ≡ b)
nat_beq_iff a b = ground arith

-- A split on a computed value that keeps the equation.
pub Bool-cases : (b : Bool) → (b ≡ true) ⊎ (b ≡ false)
Bool-cases true = inl refl
Bool-cases false = inr refl

pub Option-cases {ℓ} : {A : Type ℓ} (o : Option A) → (o ≡ none) ⊎ ((a : A) × (o ≡ some a))
Option-cases none = inl refl
Option-cases (some a) = inr (a, refl)

-- A type whose values the program compares, as keys of a map and elsewhere.
pub record Key {ℓ} (K : Type ℓ) : Type ℓ where
  pub same : K → K → Bool
  pub same_iff : (j k : K) → (same j k ≡ true) ↔ (j ≡ k)

instance abbrev pub string_key : Key String
string_key = record { same = str_eq; same_iff = eq_iff }

instance abbrev pub nat_key : Key ℕ
nat_key = record { same = nat_beq; same_iff = nat_beq_iff }

module _ {ℓ} {K : Type ℓ} ⦃c : Key K⦄ where
  infix 50 ◌==◌
  abbrev pub ◌==◌ : K → K → Bool
  ◌==◌ = c.same

  pub ==_refl : (k : K) → (k == k) ≡ true
  ==_refl k = (c.same_iff k k).1 refl

  pub ==_ne : (j k : K) → j ≢ k → (j == k) ≡ false
  ==_ne j k h = elim (Bool-cases (j == k)) [ inl p ↦ absurd (h ((c.same_iff j k).0 p)) | inr p ↦ p ]

  pub ==→eq : (j k : K) → (j == k) ≡ true → j ≡ k
  ==→eq j k h = (c.same_iff j k).0 h

  pub ==→ne : (j k : K) → (j == k) ≡ false → j ≢ k
  ==→ne j k h p = cc (h, (c.same_iff j k).1 p)

-- A finite check: the test holds of the numbers from `k` up to but not including `k + n`.
unfoldable pub passes : (ℕ → Bool) → ℕ → ℕ → Bool
passes test k zero = true
passes test k (suc n) = let later = passes test (k + 1) n in test k && later

pub passes_at :
    (test : ℕ → Bool) (k n i : ℕ) → passes test k n ≡ true → k ≤ i → i < k + n → test i ≡ true
unfolding passes
passes_at test k zero i h lo hi = absurd (omega arith)
passes_at test k (suc n) i h lo hi = elim (Bool-cases (nat_beq k i)) [
  | inl e ↦ subst (λ j. test j ≡ true) ((nat_beq_iff k i).0 e) (ground arith)
  | inr e ↦ passes_at test (k + 1) n i (ground arith) (ground arith) (omega arith)
]
