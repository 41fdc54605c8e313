-- ===== src/Jobs/Claimed.antt =====
-- The invariant of the interleaved statements: the held ids are distinct, and a row is running
-- exactly while its id is held.
use mentis_eterna.Prelude.{
  ℕ, suc, ◌≤◌, String, Bool, true, false, Option, some, List, [], ◌∷◌, ◌++◌, All, Bool-cases, inl,
  inr, ◌≡◌, sym, ◌∙◌, ap, nat_key, nat_beq, arith, if◌then◌else◌,
}
use mentis_eterna.Jobs.Table.{
  is_planned, is_running, Run, Table, index_refuses, insert_row, planned_row, update_where, any_row,
  delete_where, is_planned_id,
}
use mentis_eterna.Jobs.Unique.{clash, IsConsistent}
use mentis_eterna.Jobs.Interleaving.{World, member, without}

-- No id twice.
abbrev pub Distinct : List ℕ → Type 0
Distinct [] = Unit
Distinct (i ∷ is) = (member i is ≡ false) × Distinct is

-- The rows that run are those that are held.
abbrev pub Held : List ℕ → List Run → Type 0
Held held = All (λ r. is_running r.status ≡ member r.id held)

pub record IsSafe (w : World) : Type 0 where
  pub consistent : IsConsistent w.table.last_id w.table.rows
  pub distinct : Distinct w.held
  pub bounded : All (λ i. i ≤ w.table.last_id) w.held
  pub running_held : Held w.held w.table.rows

-- A statement that changes the rows that pass `p` by `f`, for other held ids.
pub Held-update :
    (p : Run → Bool) (f : Run → Run) (held held' : List ℕ) (rows : List Run)
    → Held held rows
    → All
        (λ r.
          is_running r.status ≡ member r.id held
          → is_running (if p r then f r else r).status ≡ member (if p r then f r else r).id held')
        rows
    → Held held' (update_where p f rows)
unfolding update_where
Held-update p f held held' [] h k = tt
Held-update p f held held' (r ∷ rows) h k = (k.0 h.0, Held-update p f held held' rows h.1 k.1)

pub Held-delete :
    (p : Run → Bool) (held : List ℕ) (rows : List Run)
    → Held held rows
    → Held held (delete_where p rows)
unfolding delete_where
Held-delete p held [] h = tt
Held-delete p held (r ∷ rows) h = elim (Bool-cases (p r)) [
  | inl e ↦ rw e (Held-delete p held rows h.1)
  | inr e ↦ rw e (h.0, Held-delete p held rows h.1)
]

pub All-every {ℓ} : {A : Type ℓ} {P : A → Type ℓ} → ((a : A) → P a) → (xs : List A) → All P xs
All-every h [] = tt
All-every h (x ∷ xs) = (h x, All-every h xs)

pub All-mono {ℓ} :
    {A : Type ℓ} {P Q : A → Type ℓ} → ((a : A) → P a → Q a) → (xs : List A) → All P xs → All Q xs
All-mono h [] k = tt
All-mono h (x ∷ xs) k = (h x k.0, All-mono h xs k.1)

pub insert_row-some :
    (job : ℕ) (payload : Option String) (retries now : ℕ) (t : Table) (id : ℕ) (t' : Table)
    → insert_row job payload retries now t ≡ some (id, t')
    → (index_refuses job payload t.rows ≡ false)
      × (t' ≡ record {
        rows = t.rows ++ planned_row (suc t.last_id) job payload retries now ∷ [];
        last_id = suc t.last_id;
      })
unfolding insert_row
insert_row-some job payload retries now t id t' h = ground arith

planned_apart :
    (r : Run) (id : ℕ) (rows : List Run)
    → All (λ q. clash r q ≡ false) rows
    → any_row (is_planned_id id) rows ≡ true
    → nat_beq r.id id ≡ false
unfolding any_row
planned_apart r id [] h e = cc
planned_apart r id (q ∷ rows) h e = elim (Bool-cases (is_planned_id id q)) [
  | inl e' ↦ ground (arith, h.0)
  | inr e' ↦ planned_apart r id rows h.1 (ground arith)
]

-- A planned row with an id makes every row with that id planned, and the id is not held.
pub planned_ids :
    (last id : ℕ) (rows : List Run)
    → IsConsistent last rows
    → any_row (is_planned_id id) rows ≡ true
    → All (λ r. nat_beq r.id id ≡ true → is_planned r.status ≡ true) rows
unfolding any_row
planned_ids last id [] h e = tt
planned_ids last id (r ∷ rows) h e = elim (Bool-cases (is_planned_id id r)) [
  | inl e' ↦ (λ _. ground arith, All-mono (λ q c same. absurd (ground arith)) rows h.1)
  | inr e' ↦
      let rest : any_row (is_planned_id id) rows ≡ true = ground arith in
      (λ same. cc (same, planned_apart r id rows h.1 rest), planned_ids last id rows h.2 rest)
]

planned_free :
    (held : List ℕ) (id : ℕ) (r : Run)
    → is_running r.status ≡ member r.id held
    → is_planned_id id r ≡ true
    → member id held ≡ false
planned_free held id r h e =
    let same : r.id ≡ id = ground arith in
    let idle : is_running r.status ≡ false = ground arith in
    ap (λ i. member i held) (sym same) ∙ sym h ∙ idle

pub member_planned :
    (held : List ℕ) (id : ℕ) (rows : List Run)
    → Held held rows
    → any_row (is_planned_id id) rows ≡ true
    → member id held ≡ false
unfolding any_row
member_planned held id [] h e = cc
member_planned held id (r ∷ rows) h e = elim (Bool-cases (is_planned_id id r)) [
  | inl e' ↦ planned_free held id r h.0 e'
  | inr e' ↦ member_planned held id rows h.1 (ground arith)
]

pub member-without :
    (i j : ℕ) (is : List ℕ) → member j (without i is) ≡ (if nat_beq j i then false else member j is)
member-without i j [] = ground arith
member-without i j (k ∷ is) = ground (arith, member-without i j is)
