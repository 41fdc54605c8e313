-- ===== src/Prelude/Membership.antt =====
-- Members of lists, reorderings of lists, and what a test keeps of one.
use mathlib.Core.List.{Memᴰ, Permᴰ, List, [], ◌∷◌, ◌++◌}
use mathlib.Core.List.Permᴰ.{middle}
use mathlib.Core.Path.{◌≡◌, refl, sym, ap, ◌∙◌, subst}
use mathlib.Core.Logic.{inl, inr}
use mathlib.Core.Bool.{Bool, true, not}
use native.Mathlib.Omega.{arith}
use mentis_eterna.Prelude.Tests.{Bool-cases}
use mentis_eterna.Prelude.Lists.{All, keep_if}

module _ {A : Type 0} where
  pub mem-perm : {a : A} {xs ys : List A} → Permᴰ xs ys → Memᴰ a xs → Memᴰ a ys
  mem-perm Permᴰ.nil m = m
  mem-perm (Permᴰ.cons e p) (Memᴰ.head h) = Memᴰ.head (h ∙ e)
  mem-perm (Permᴰ.cons e p) (Memᴰ.tail m) = Memᴰ.tail (mem-perm p m)
  mem-perm (Permᴰ.swap e f) (Memᴰ.head h) = Memᴰ.tail (Memᴰ.head (h ∙ e))
  mem-perm (Permᴰ.swap e f) (Memᴰ.tail (Memᴰ.head h)) = Memᴰ.head (h ∙ f)
  mem-perm (Permᴰ.swap e f) (Memᴰ.tail (Memᴰ.tail m)) = Memᴰ.tail (Memᴰ.tail m)
  mem-perm (Permᴰ.trans p q) m = mem-perm q (mem-perm p m)

  -- What a test keeps and what it leaves make up the list.
  pub keep_if-perm :
      (p : A → Bool) (xs : List A) → Permᴰ (keep_if p xs ++ keep_if (λ x. not (p x)) xs) xs
  keep_if-perm p [] = Permᴰ.nil
  keep_if-perm p (x ∷ xs) = elim (Bool-cases (p x)) [
    | inl e ↦ rw e (Permᴰ.cons refl (keep_if-perm p xs))
    | inr e ↦ rw e (
        Permᴰ.trans (middle x (keep_if p xs) (keep_if (λ y. not (p y)) xs))
          (Permᴰ.cons refl (keep_if-perm p xs)))
  ]

  pub mem-keep_if :
      {a : A} (p : A → Bool) (xs : List A) → p a ≡ true → Memᴰ a xs → Memᴰ a (keep_if p xs)
  mem-keep_if p [] h m = m
  mem-keep_if p (x ∷ xs) h (Memᴰ.head e) = rw (ap p (sym e) ∙ h) (Memᴰ.head e)
  mem-keep_if p (x ∷ xs) h (Memᴰ.tail m) = elim (Bool-cases (p x)) [
    | inl e ↦ rw e (Memᴰ.tail (mem-keep_if p xs h m))
    | inr e ↦ rw e (mem-keep_if p xs h m)
  ]

  pub All-mono : {P Q : A → Type 0} → ((a : A) → P a → Q a) → (xs : List A) → All P xs → All Q xs
  All-mono f [] h = tt
  All-mono f (x ∷ xs) h = (f x h.0, All-mono f xs h.1)

  -- Tests that agree on the elements keep the same.
  pub keep_if-same :
      (p q : A → Bool) (xs : List A) → All (λ a. p a ≡ q a) xs → keep_if p xs ≡ keep_if q xs
  keep_if-same p q [] h = refl
  keep_if-same p q (x ∷ xs) h = ground (arith, h.0, keep_if-same p q xs h.1)

  pub All-at : (P : A → Type 0) {a : A} (xs : List A) → All P xs → Memᴰ a xs → P a
  All-at P [] h m = elim m [ ]
  All-at P (x ∷ xs) h (Memᴰ.head e) = subst P (sym e) h.0
  All-at P (x ∷ xs) h (Memᴰ.tail m) = All-at P xs h.1 m

  pub All-append : (P : A → Type 0) (xs ys : List A) → All P xs → All P ys → All P (xs ++ ys)
  All-append P [] ys h k = k
  All-append P (x ∷ xs) ys h k = (h.0, All-append P xs ys h.1 k)

  -- What is kept meets a predicate, if what meets another and passes the test does.
  pub All-kept :
      (P Q : A → Type 0) (p : A → Bool) (xs : List A)
      → ((a : A) → p a ≡ true → P a → Q a)
      → All P xs
      → All Q (keep_if p xs)
  All-kept P Q p [] f h = tt
  All-kept P Q p (x ∷ xs) f h = elim (Bool-cases (p x)) [
    | inl e ↦ rw e (f x e h.0, All-kept P Q p xs f h.1)
    | inr e ↦ rw e (All-kept P Q p xs f h.1)
  ]
