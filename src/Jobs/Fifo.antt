-- ===== src/Jobs/Fifo.antt =====
-- Which run a worker claims.
use mathlib.Core.List.{Memᴰ}
use mentis_eterna.Prelude.{
  ℕ, ◌≤◌, true, false, Option, none, some, List, [], ◌∷◌, All, Bool-cases, inl, inr, ◌⊎◌, ◌≡◌, refl,
  sym, subst, leb, ==_refl, nat_key, arith,
}
use mentis_eterna.Jobs.Table.{
  is_planned, Run, Table, update_where, any_row, is_planned_id, start_run,
}
use mentis_eterna.Jobs.Worker.{older, pick_candidate, dequeue_loop, atomic_dequeue}

-- No planned row is older.
abbrev pub IsOldest : Run → List Run → Type 0
IsOldest r = All (λ q. is_planned q.status ≡ true → r.created_at ≤ q.created_at)

abbrev NonePlanned : List Run → Type 0
NonePlanned = All (λ q. is_planned q.status ≡ false)

-- What a SELECT of the oldest planned row gives.
abbrev Picks : List Run → Option Run → Type 0
Picks rows none = NonePlanned rows
Picks rows (some r) = Memᴰ r rows × (is_planned r.status ≡ true) × IsOldest r rows

IsOldest-none : (r : Run) (rows : List Run) → NonePlanned rows → IsOldest r rows
IsOldest-none r [] h = tt
IsOldest-none r (q ∷ rows) h = (λ p. cc (h.0, p), IsOldest-none r rows h.1)

IsOldest-le :
    (r q : Run) (rows : List Run) → r.created_at ≤ q.created_at → IsOldest q rows → IsOldest r rows
IsOldest-le r q [] le h = tt
IsOldest-le r q (x ∷ rows) le h = (λ p. omega (arith, h.0 p), IsOldest-le r q rows le h.1)

older_cases :
    (r q : Run)
    → ((older r (some q) ≡ r) × (r.created_at ≤ q.created_at))
      ⊎ ((older r (some q) ≡ q) × (q.created_at ≤ r.created_at))
older_cases r q = elim (Bool-cases (leb r.created_at q.created_at)) [
  | inl e ↦ inl (rw e refl, ground arith)
  | inr e ↦ inr (rw e refl, ground arith)
]

Picks-older :
    (r : Run) (rows : List Run) (o : Option Run)
    → is_planned r.status ≡ true
    → Picks rows o
    → Picks (r ∷ rows) (some (older r o))
Picks-older r rows none p h = (Memᴰ.head refl, p, (λ _. omega arith, IsOldest-none r rows h))
Picks-older r rows (some q) p (m, pq, old) = elim (older_cases r q) [
  | inl (e, le) ↦
      subst (λ x. Picks (r ∷ rows) (some x)) (sym e)
        (Memᴰ.head refl, p, (λ _. omega arith, IsOldest-le r q rows le old))
  | inr (e, le) ↦ subst (λ x. Picks (r ∷ rows) (some x)) (sym e) (Memᴰ.tail m, pq, (λ _. le, old))
]

pick_candidate-Picks : (rows : List Run) → Picks rows (pick_candidate rows)
unfolding pick_candidate
pick_candidate-Picks [] = tt
pick_candidate-Picks (r ∷ rows) = elim (Bool-cases (is_planned r.status)) [
  | inl p ↦ rw p (Picks-older r rows (pick_candidate rows) p (pick_candidate-Picks rows))
  | inr e ↦ rw e (skip (pick_candidate rows) (pick_candidate-Picks rows) e)
]
  where
    skip : (o : Option Run) → Picks rows o → is_planned r.status ≡ false → Picks (r ∷ rows) o
    skip none h e = (e, h)
    skip (some q) (m, pq, old) e = (Memᴰ.tail m, pq, (λ p. cc (e, p), old))

any_row-mem :
    (r : Run) (rows : List Run)
    → Memᴰ r rows
    → is_planned r.status ≡ true
    → any_row (is_planned_id r.id) rows ≡ true
unfolding any_row
any_row-mem r [] m p = elim m [ ]
any_row-mem r (q ∷ rows) (Memᴰ.head e) p =
    subst (λ x. any_row (is_planned_id r.id) (x ∷ rows) ≡ true) e (rw (==_refl r.id, p) refl)
any_row-mem r (q ∷ rows) (Memᴰ.tail m) p = rw (any_row-mem r rows m p) (ground arith)

-- What a dequeue does to the table: nothing where no run is planned; else it starts the oldest
-- planned run.
abbrev pub Claims : ℕ → Table → Option Run × Table → Type 0
Claims now t (none, t') = NonePlanned t.rows × (t' ≡ t)
Claims now t (some r, t') =
    Memᴰ r t.rows
    × (is_planned r.status ≡ true)
    × IsOldest r t.rows
    × (t' ≡ record t { rows = update_where (is_planned_id r.id) (start_run now) t.rows })

-- With no other worker in between, a dequeue claims a run whenever one is planned: an oldest one,
-- which it alone changes, to running. Where none is planned it claims nothing and changes nothing.
pub atomic_dequeue-Claims :
    (now : ℕ) (t : Table) → Claims now t (atomic_dequeue (λ _ others. others) now t)
unfolding atomic_dequeue dequeue_loop
atomic_dequeue-Claims now t = go (pick_candidate t.rows) refl (pick_candidate-Picks t.rows)
  where
    go :
        (o : Option Run)
        → pick_candidate t.rows ≡ o
        → Picks t.rows o
        → Claims now t (atomic_dequeue (λ _ others. others) now t)
    go none e h = rw (e, dequeue_loop) (h, refl)
    go (some r) e (m, p, old) =
        rw (e, dequeue_loop) (rw (any_row-mem r t.rows m p) (m, p, old, refl))
