-- ===== src/Search/Subsequence.antt =====
-- internal/server/search.go: the loop, which takes each rune of the query at its first occurrence,
-- decides whether there is any way to find the query in the target.
use mathlib.Core.Bool.{true≢false}
use mathlib.Core.List.{cons≢nil}
use mentis_eterna.Search.{scan_target, is_subsequence}
use mentis_eterna.Prelude.{
  nat_key, ==→eq, ==→ne, subst, ◌∙◌, ◌↔◌, Bool, Bool-cases, List, [], arith, false, if◌then◌else◌,
  inl, inr, length, nat_beq, refl, suc, sym, true, ℕ, ◌∷◌, ◌≡◌, ◌≢◌,
}

-- The query is what is left of the target when some runes are struck out.
pub data IsWithin : List ℕ → List ℕ → Type 0 where
  none_left : {target : List ℕ} → IsWithin [] target
  strike : {query target : List ℕ} (r : ℕ) → IsWithin query target → IsWithin query (r ∷ target)
  keep : {query target : List ℕ} (r : ℕ) → IsWithin query target → IsWithin (r ∷ query) (r ∷ target)

IsWithin-tail :
    {q : ℕ} {query target : List ℕ} → IsWithin (q ∷ query) target → IsWithin query target
IsWithin-tail (strike r w) = strike r (IsWithin-tail w)
IsWithin-tail (keep r w) = strike r w

IsWithin-cons :
    {q r : ℕ} {query target : List ℕ} → IsWithin (q ∷ query) (r ∷ target) → IsWithin query target
IsWithin-cons (strike r w) = IsWithin-tail w
IsWithin-cons (keep r w) = w

IsWithin-skip :
    {q r : ℕ} {query target : List ℕ}
    → q ≢ r
    → IsWithin (q ∷ query) (r ∷ target)
    → IsWithin (q ∷ query) target
IsWithin-skip n (strike r w) = w
IsWithin-skip n (keep r w) = absurd (n refl)

-- The same search without the index: what is left of the query, and what is left of the target.
unfoldable greedy : List ℕ → List ℕ → Bool
greedy [] target = true
greedy (q ∷ query) [] = false
greedy (q ∷ query) (r ∷ target) =
    let found = greedy query target in
    let passed = greedy (q ∷ query) target in if nat_beq q r then found else passed

nat_beq-suc : (a b : ℕ) → nat_beq (suc a) (suc b) ≡ nat_beq a b
nat_beq-suc a b = ground arith

two_left : (n : ℕ) → nat_beq 1 (suc (suc n)) ≡ false
two_left n = ground arith

scan_target-suc :
    (q : ℕ) (query : List ℕ) (qi : ℕ) (target : List ℕ)
    → scan_target (q ∷ query) (suc qi) target ≡ scan_target query qi target
unfolding scan_target
scan_target-suc q query qi [] = refl
scan_target-suc q query qi (r ∷ target) =
    rw (nat_beq-suc (suc qi) (length query))
      (rw (scan_target-suc q query (suc qi) target) (rw (scan_target-suc q query qi target) refl))

scan_target-greedy :
    (q : ℕ) (query target : List ℕ) → scan_target (q ∷ query) 0 target ≡ greedy (q ∷ query) target
unfolding scan_target greedy
scan_target-greedy q query [] = refl
scan_target-greedy q [] (r ∷ target) = elim (Bool-cases (nat_beq q r)) [
  | inl e ↦ rw e refl
  | inr n ↦ rw n (scan_target-greedy q [] target)
]
scan_target-greedy q (p ∷ query) (r ∷ target) = elim (Bool-cases (nat_beq q r)) [
  | inl e ↦
      rw (e, two_left (length query))
        (scan_target-suc q (p ∷ query) 0 target ∙ scan_target-greedy p query target)
  | inr n ↦ rw n (scan_target-greedy q (p ∷ query) target)
]

greedy-IsWithin : (query target : List ℕ) → greedy query target ≡ true → IsWithin query target
unfolding greedy
greedy-IsWithin [] target h = none_left
greedy-IsWithin (q ∷ query) [] h = absurd (true≢false (sym h))
greedy-IsWithin (q ∷ query) (r ∷ target) h = elim (Bool-cases (nat_beq q r)) [
  | inl e ↦
      subst (λ x. IsWithin (q ∷ query) (x ∷ target)) (==→eq q r e)
        (keep q (greedy-IsWithin query target (rw e at h)))
  | inr n ↦ strike r (greedy-IsWithin (q ∷ query) target (rw n at h))
]

IsWithin-greedy : (query target : List ℕ) → IsWithin query target → greedy query target ≡ true
unfolding greedy
IsWithin-greedy [] target w = refl
IsWithin-greedy (q ∷ query) [] w = elim w [ ]
IsWithin-greedy (q ∷ query) (r ∷ target) w = elim (Bool-cases (nat_beq q r)) [
  | inl e ↦ rw e (IsWithin-greedy query target (IsWithin-cons w))
  | inr n ↦ rw n (IsWithin-greedy (q ∷ query) target (IsWithin-skip (==→ne q r n) w))
]

-- The loop finds a query in a target when and only when the query is not empty and is what is left
-- of the target when some runes are struck out.
pub is_subsequence-IsWithin :
    (query target : List ℕ)
    → (is_subsequence query target ≡ true) ↔ ((query ≢ []) × IsWithin query target)
unfolding is_subsequence
is_subsequence-IsWithin [] target =
    (λ h. absurd (true≢false (sym h)), λ found. absurd (found.0 refl))
is_subsequence-IsWithin (q ∷ query) target = (
  λ h. (
    λ p. absurd (cons≢nil p),
    greedy-IsWithin (q ∷ query) target (sym (scan_target-greedy q query target) ∙ h),
  ),
  λ found. scan_target-greedy q query target ∙ IsWithin-greedy (q ∷ query) target found.1,
)
