-- ===== src/Backup/Sorting.antt =====
-- What `ClassifyBackups` relies on of `sort.Slice`, and the order and the keys of its backups.
use mathlib.Core.List.{Permᴰ}
use mentis_eterna.Prelude.{
  ◌≤◌, String, false, List, [], ◌∷◌, All, ◌≡◌, refl, sym, ◌∙◌, subst, string_key, arith,
}
use mentis_eterna.Backup.Retention.{BackupEntry}
use mentis_eterna.Backup.Greedy.{has_key}

abbrev pub IsDescending : List BackupEntry → Type 0
IsDescending [] = Unit
IsDescending (b ∷ bs) = All (λ a. a.time ≤ b.time) bs × IsDescending bs

-- The documented behaviour of the sort: it puts the backups in order, in some order where they are
-- equally old, and neither adds nor drops any.
pub record SortsNewestFirst (newest_first : List BackupEntry → List BackupEntry) : Type 0 where
  pub permutes : (bs : List BackupEntry) → Permᴰ (newest_first bs) bs
  pub descends : (bs : List BackupEntry) → IsDescending (newest_first bs)

-- No key occurs twice.
abbrev pub Distinct : List BackupEntry → Type 0
Distinct [] = Unit
Distinct (b ∷ bs) = (has_key b.key bs ≡ false) × Distinct bs

has_key-perm : {xs ys : List BackupEntry} (k : String) → Permᴰ xs ys → has_key k xs ≡ has_key k ys
has_key-perm k Permᴰ.nil = refl
has_key-perm k (Permᴰ.cons e p) = cc (e, has_key-perm k p)
has_key-perm k (Permᴰ.swap e f) = rw e (rw f (ground arith))
has_key-perm k (Permᴰ.trans p q) = has_key-perm k p ∙ has_key-perm k q

Distinct-swap :
    (a b : BackupEntry) (l : List BackupEntry) → Distinct (a ∷ b ∷ l) → Distinct (b ∷ a ∷ l)
Distinct-swap a b l h = (
  ground (arith, h.0, h.1.0, string_key.same_iff a.key b.key, string_key.same_iff b.key a.key),
  (ground (arith, h.0), h.1.1),
)

pub Distinct-perm : {xs ys : List BackupEntry} → Permᴰ xs ys → Distinct xs → Distinct ys
Distinct-perm Permᴰ.nil h = h
Distinct-perm (Permᴰ.cons {a} {b} {l₁} {l₂} e p) h =
    (sym (has_key-perm b.key p) ∙ subst (λ x. has_key x.key l₁ ≡ false) e h.0, Distinct-perm p h.1)
Distinct-perm (Permᴰ.swap {a} {b} {a'} {b'} {l} e f) h =
    subst (λ x. Distinct (x ∷ b' ∷ l)) f
      (subst (λ x. Distinct (b ∷ x ∷ l)) e (Distinct-swap a b l h))
Distinct-perm (Permᴰ.trans p q) h = Distinct-perm q (Distinct-perm p h)
