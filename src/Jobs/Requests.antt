-- ===== src/Jobs/Requests.antt =====
-- What `Enqueue` and `CancelRun` do to the table.
use mathlib.Core.Option
use mentis_eterna.Prelude.{
  ℕ, suc, String, Bool, true, false, ◌&&◌, Option, none, some, List, [], ◌∷◌, ◌++◌, All, Bool-cases,
  inl, inr, ◌≡◌, refl, ap, nat_key, string_key, nat_beq, arith, if◌then◌else◌,
}
use text.Mathlib.TextEquality.{eq_iff}
use mentis_eterna.Jobs.Table.{
  planned, is_planned, is_active, Run, Table, payload_is, payload_clash, find_active, find_run,
  index_refuses, insert_row, planned_row, update_where, any_row, is_planned_id, cancel,
}
use mentis_eterna.Jobs.Manager.{
  Manager, Result, ok, err, not_planned, find_definition, emit_event, insert_planned_run, enqueue,
  cancel_run, enqueued,
}
use mentis_eterna.Jobs.Unique.{clash, IsConsistent}

abbrev pub quiet : Table → Table
quiet t = t

-- The two ways to compare payloads agree on one that is not NULL.
clash-eq-is : (o : Option String) (p : String) → payload_clash o (some p) ≡ payload_is o (some p)
unfolding payload_clash payload_is
clash-eq-is none p = refl
clash-eq-is (some q) p = refl

abbrev conflicts : ℕ → Option String → Run → Bool
conflicts job payload r =
    is_active r.status && nat_beq r.job_id job && payload_clash r.payload payload

-- Where the index refuses a payload that is not NULL, the lookup behind it finds a row.
find_active-refused :
    (job : ℕ) (p : String) (rows : List Run)
    → index_refuses job (some p) rows ≡ true
    → (id : ℕ) × (find_active job (some p) rows ≡ some id)
unfolding index_refuses find_active
find_active-refused job p [] h = cc
find_active-refused job p (r ∷ rows) h = elim (Bool-cases (conflicts job (some p) r)) [
  | inl t ↦ (r.id, ground (arith, clash-eq-is r.payload p))
  | inr n ↦
      let (id, e) = find_active-refused job p rows (ground arith) in
      (id, ground (arith, clash-eq-is r.payload p, e))
]

-- Where it does not refuse, a row that is added at the end is the one found.
index_refuses-append :
    (job : ℕ) (p : String) (id retries now : ℕ) (rows : List Run)
    → index_refuses job (some p) rows ≡ false
    → (index_refuses job (some p) (rows ++ planned_row id job (some p) retries now ∷ []) ≡ true)
      × (find_active job (some p) (rows ++ planned_row id job (some p) retries now ∷ []) ≡ some id)
unfolding index_refuses find_active payload_is payload_clash
index_refuses-append job p id retries now [] h = ground (arith, eq_iff p p)
index_refuses-append job p id retries now (r ∷ rows) h =
    ground (
      arith,
      clash-eq-is r.payload p,
      index_refuses-append job p id retries now rows (ground arith),
    )

module _ (job : ℕ) (payload : Option String) (retries now : ℕ) (m : Manager) where
  insert_refused :
      (id : ℕ)
      → index_refuses job payload m.table.rows ≡ true
      → find_active job payload m.table.rows ≡ some id
      → insert_planned_run quiet job payload retries now m ≡ (ok (id, true), m)
  unfolding insert_planned_run insert_row
  insert_refused id t e = rw (t, insert_planned_run) (rw e refl)

  abbrev added : Manager
  added = record m {
    table = record {
      rows = m.table.rows ++ planned_row (suc m.table.last_id) job payload retries now ∷ [];
      last_id = suc m.table.last_id;
    };
  }

  insert_fresh :
      index_refuses job payload m.table.rows ≡ false
      → insert_planned_run quiet job payload retries now m
        ≡ (ok (suc m.table.last_id, false), added)
  unfolding insert_planned_run insert_row
  insert_fresh n = rw (n, insert_planned_run) refl

abbrev pub Again : String → String → String → ℕ → Result ℕ × Manager → Type 0
Again plugin name p later r =
    (id : ℕ) × (r.0 ≡ ok id) × (enqueue quiet plugin name (some p) later r.1 ≡ (ok id, r.1))

-- Where the definition exists and no other goroutine interferes, an enqueue with a payload returns
-- the id of a run, and a second one with the same payload returns the same id and changes nothing,
-- neither the table nor the events.
pub enqueue_twice :
    (plugin name p : String) (now later job : ℕ) (m : Manager)
    → find_definition plugin name m.definitions ≡ some job
    → Again plugin name p later (enqueue quiet plugin name (some p) now m)
unfolding enqueue emit_event
enqueue_twice plugin name p now later job m d =
    elim (Bool-cases (index_refuses job (some p) m.table.rows)) [
      | inl t ↦
          let (id, e) = find_active-refused job p m.table.rows t in
          rw (d, insert_refused job (some p) 0 now m id t e)
            (id, refl, rw (d, insert_refused job (some p) 0 later m id t e) refl)
      | inr n ↦
          let id = suc m.table.last_id in
          let (t, e) = index_refuses-append job p id 0 now m.table.rows n in
          rw (d, insert_fresh job (some p) 0 now m n)
            (
              id,
              refl,
              rw
                  (
                    d,
                    insert_refused job (some p) 0 later
                        (emit_event enqueued id job planned none none (added job (some p) 0 now m))
                        id t e,
                  )
                  refl,
            )
    ]

-- A cancellation of an id that is planned nowhere is refused and changes nothing.
update_none :
    (p : Run → Bool) (f : Run → Run) (rows : List Run)
    → any_row p rows ≡ false
    → update_where p f rows ≡ rows
unfolding any_row update_where
update_none p f [] h = refl
update_none p f (r ∷ rows) h =
    let n : p r ≡ false = ground arith in
    rw n (ap (λ rs. r ∷ rs) (update_none p f rows (ground arith)))

find_run-update :
    (id j now : ℕ) (rows : List Run)
    → find_run j (update_where (is_planned_id id) (cancel now) rows)
      ≡ Option.map (λ r. if is_planned_id id r then cancel now r else r) (find_run j rows)
unfolding find_run update_where
find_run-update id j now [] = refl
find_run-update id j now (r ∷ rows) = ground (arith, find_run-update id j now rows)

abbrev pub planned_at : Option Run → Bool
planned_at none = false
planned_at (some r) = is_planned r.status

apart_any :
    (r : Run) (id : ℕ) (rows : List Run)
    → All (λ q. clash r q ≡ false) rows
    → nat_beq r.id id ≡ true
    → any_row (is_planned_id id) rows ≡ false
unfolding any_row
apart_any r id [] h e = refl
apart_any r id (q ∷ rows) h e = ground (arith, h.0, apart_any r id rows h.1 e)

-- With distinct ids, the row found under an id says whether a row with that id is planned.
any_row-planned :
    (id last : ℕ) (rows : List Run)
    → IsConsistent last rows
    → any_row (is_planned_id id) rows ≡ planned_at (find_run id rows)
unfolding any_row find_run
any_row-planned id last [] h = refl
any_row-planned id last (r ∷ rows) h = elim (Bool-cases (nat_beq r.id id)) [
  | inl t ↦ ground (arith, apart_any r id rows h.1 t)
  | inr n ↦ ground (arith, any_row-planned id last rows h.2)
]

-- In a table that meets its constraints, a cancellation succeeds exactly if the run with that id is
-- planned. Looked up by any id, a run is as it was before, but for that planned run, which is
-- cancelled; so a refused cancellation changes no run.
pub cancel_run_outcome :
    (id now j : ℕ) (m : Manager)
    → IsConsistent m.table.last_id m.table.rows
    → ((cancel_run id now m).0
        ≡ (if planned_at (find_run id m.table.rows) then ok tt else err not_planned))
      × (find_run j (cancel_run id now m).1.table.rows
          ≡ Option.map
              (λ r. if is_planned_id id r then cancel now r else r)
              (find_run j m.table.rows))
unfolding cancel_run emit_event
cancel_run_outcome id now j m h =
    rw (← any_row-planned id m.table.last_id m.table.rows h)
      (elim (Bool-cases (any_row (is_planned_id id) m.table.rows)) [
        | inl t ↦ rw t (refl, find_run-update id j now m.table.rows)
        | inr n ↦ rw n (refl, find_run-update id j now m.table.rows)
      ])
