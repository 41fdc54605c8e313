-- ===== src/Jobs/Unique.antt =====
-- The table keeps its constraints: ids are distinct and not above the last one, and no two active
-- runs of a job have the same payload. An UPDATE never trips the index, since none makes a run
-- active that was not.
use mentis_eterna.Prelude.{
  ℕ, suc, ◌≤◌, Bool, true, false, ◌&&◌, ◌||◌, List, [], ◌∷◌, ◌++◌, All, Bool-cases, inl, inr, ◌≡◌,
  nat_key, nat_beq, string_key, arith, if◌then◌else◌,
}
use mentis_eterna.Jobs.Table.{
  is_active, Run, payload_clash, index_refuses, update_where, delete_where,
}

-- Two rows that may not stand in the table together.
abbrev pub clash : Run → Run → Bool
clash r q =
    nat_beq r.id q.id
    || is_active r.status
      && is_active q.status
      && nat_beq r.job_id q.job_id
      && payload_clash r.payload q.payload

abbrev pub IsConsistent : ℕ → List Run → Type 0
IsConsistent last [] = Unit
IsConsistent last (r ∷ rows) =
    (r.id ≤ last) × All (λ q. clash r q ≡ false) rows × IsConsistent last rows

-- A change of the rows that pass a test which keeps what the constraints read, and makes no run
-- active.
abbrev pub Tames : (Run → Bool) → (Run → Run) → Type 0
Tames p f =
    (r : Run)
    → p r ≡ true
    → ((f r).id ≡ r.id)
      × ((f r).job_id ≡ r.job_id)
      × ((f r).payload ≡ r.payload)
      × ((is_active r.status ≡ false) → is_active (f r).status ≡ false)

module _ (p : Run → Bool) (f : Run → Run) (tame : Tames p f) where
  clash-update :
      (r q : Run)
      → clash r q ≡ false
      → clash (if p r then f r else r) (if p q then f q else q) ≡ false
  clash-update r q h = ground (arith, tame r, tame q)

  All-update :
      (r : Run) (rows : List Run)
      → All (λ q. clash r q ≡ false) rows
      → All (λ q. clash (if p r then f r else r) q ≡ false) (update_where p f rows)
  unfolding update_where
  All-update r [] h = tt
  All-update r (q ∷ rows) h = (clash-update r q h.0, All-update r rows h.1)

  pub update_where-IsConsistent :
      (last : ℕ) (rows : List Run)
      → IsConsistent last rows
      → IsConsistent last (update_where p f rows)
  unfolding update_where
  update_where-IsConsistent last [] h = tt
  update_where-IsConsistent last (r ∷ rows) h =
      (ground (arith, tame r), All-update r rows h.1, update_where-IsConsistent last rows h.2)

module _ (p : Run → Bool) where
  All-delete : (P : Run → Type 0) (rows : List Run) → All P rows → All P (delete_where p rows)
  unfolding delete_where
  All-delete P [] h = tt
  All-delete P (q ∷ rows) h = elim (Bool-cases (p q)) [
    | inl e ↦ rw e (All-delete P rows h.1)
    | inr e ↦ rw e (h.0, All-delete P rows h.1)
  ]

  pub delete_where-IsConsistent :
      (last : ℕ) (rows : List Run)
      → IsConsistent last rows
      → IsConsistent last (delete_where p rows)
  unfolding delete_where
  delete_where-IsConsistent last [] h = tt
  delete_where-IsConsistent last (r ∷ rows) h = elim (Bool-cases (p r)) [
    | inl e ↦ rw e (delete_where-IsConsistent last rows h.2)
    | inr e ↦ rw e (h.0, All-delete _ rows h.1, delete_where-IsConsistent last rows h.2)
  ]

module _ (new : Run) (last : ℕ) (fresh : new.id ≡ suc last) where
  pub append-IsConsistent :
      (rows : List Run)
      → IsConsistent last rows
      → All (λ r. clash r new ≡ false) rows
      → IsConsistent (suc last) (rows ++ new ∷ [])
  append-IsConsistent [] h free = (omega arith, tt, tt)
  append-IsConsistent (r ∷ rows) h free =
      (omega arith, All-append r rows h.1 free.0, append-IsConsistent rows h.2 free.1)
    where
      All-append :
          (q : Run) (qs : List Run)
          → All (λ x. clash q x ≡ false) qs
          → clash q new ≡ false
          → All (λ x. clash q x ≡ false) (qs ++ new ∷ [])
      All-append q [] k e = (e, tt)
      All-append q (x ∷ qs) k e = (k.0, All-append q qs k.1 e)

-- Where the index does not refuse, the new row clashes with no row.
pub clash_free :
    (new : Run) (last : ℕ) (rows : List Run)
    → new.id ≡ suc last
    → IsConsistent last rows
    → index_refuses new.job_id new.payload rows ≡ false
    → All (λ r. clash r new ≡ false) rows
unfolding index_refuses
clash_free new last [] fresh h free = tt
clash_free new last (r ∷ rows) fresh h free =
    (ground arith, clash_free new last rows fresh h.2 (ground arith))
