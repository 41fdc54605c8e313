-- ===== src/Jobs/Exclusion.antt =====
-- The invariant of Claimed under every statement of Interleaving.
use mentis_eterna.Prelude.{
  ℕ, suc, ◌≤◌, true, false, List, [], ◌∷◌, ◌++◌, All, Bool-cases, inl, inr, ◌≡◌, refl, sym, ◌∙◌, ap,
  subst, ltb, length, nat_key, nat_beq, arith, if◌then◌else◌,
}
use mentis_eterna.Jobs.Table.{
  is_planned, is_running, is_active, Run, index_refuses, planned_row, update_where, any_row, has_id,
  is_planned_id, start_run, cancel, fail, complete, revive,
}
use mentis_eterna.Jobs.Manager.{no_task, is_orphan, recover_rows, is_expired}
use mentis_eterna.Jobs.Unique.{
  IsConsistent, update_where-IsConsistent, delete_where-IsConsistent, append-IsConsistent,
  clash_free,
}
use mentis_eterna.Jobs.Sound.{recover_rows-IsConsistent}
use mentis_eterna.Jobs.Interleaving.{
  World, member, without, on_rows, Step, insert, cancel_planned, claim, finish_done, finish_errored,
  announced, recovered, clean, restart, Reach, here, next,
}
use mentis_eterna.Jobs.Claimed.{
  Distinct, Held, IsSafe, Held-update, Held-delete, All-every, All-mono, insert_row-some,
  planned_ids, member_planned, member-without,
}

Distinct-without : (i : ℕ) (is : List ℕ) → Distinct is → Distinct (without i is)
Distinct-without i [] h = tt
Distinct-without i (j ∷ is) h = elim (Bool-cases (nat_beq j i)) [
  | inl e ↦ rw e (Distinct-without i is h.1)
  | inr e ↦ rw e (ground (arith, member-without i j is), Distinct-without i is h.1)
]

All-without : (P : ℕ → Type 0) (i : ℕ) (is : List ℕ) → All P is → All P (without i is)
All-without P i [] h = tt
All-without P i (j ∷ is) h = elim (Bool-cases (nat_beq j i)) [
  | inl e ↦ rw e (All-without P i is h.1)
  | inr e ↦ rw e (h.0, All-without P i is h.1)
]

-- An id above all held ones is not held.
member_above : (n : ℕ) (is : List ℕ) → All (λ i. i ≤ n) is → member (suc n) is ≡ false
member_above n [] h = refl
member_above n (j ∷ is) h = ground (arith, member_above n is h.1)

Held-append :
    (held : List ℕ) (new : Run) (rows : List Run)
    → Held held rows
    → is_running new.status ≡ member new.id held
    → Held held (rows ++ new ∷ [])
Held-append held new [] h k = (k, tt)
Held-append held new (r ∷ rows) h k = (h.0, Held-append held new rows h.1 k)

-- A change that ends the run that it is made on.
abbrev Ends : (Run → Run) → Run → Type 0
Ends f r =
    ((f r).id ≡ r.id)
    × ((f r).job_id ≡ r.job_id)
    × ((f r).payload ≡ r.payload)
    × (is_active (f r).status ≡ false)
    × (is_running (f r).status ≡ false)

finish_row :
    (id : ℕ) (f : Run → Run) (r : Run) (held : List ℕ)
    → Ends f r
    → is_running r.status ≡ member r.id held
    → is_running (if has_id id r then f r else r).status
      ≡ member (if has_id id r then f r else r).id (without id held)
finish_row id f r held e h =
    ground (arith, member-without id r.id held, ap (λ i. member i (without id held)) e.0)

cancel_row :
    (id now : ℕ) (r : Run) (held : List ℕ)
    → is_running r.status ≡ member r.id held
    → is_running (if is_planned_id id r then cancel now r else r).status
      ≡ member (if is_planned_id id r then cancel now r else r).id held
cancel_row id now r held h = ground arith

claim_row :
    (id now : ℕ) (r : Run) (held : List ℕ)
    → (nat_beq r.id id ≡ true → is_planned r.status ≡ true)
    → is_running r.status ≡ member r.id held
    → is_running (if is_planned_id id r then start_run now r else r).status
      ≡ member (if is_planned_id id r then start_run now r else r).id (id ∷ held)
claim_row id now r held p h = ground arith

revive_row : (r : Run) → is_running (if is_running r.status then revive r else r).status ≡ false
revive_row r = ground arith

orphan_row :
    (now : ℕ) (tasks : List ℕ) (r : Run)
    → is_running r.status ≡ false
    → is_running (if is_orphan tasks r then fail now no_task r else r).status ≡ false
orphan_row now tasks r h = ground arith

-- After a recovery no row is running.
Held-recover :
    (now : ℕ) (tasks held : List ℕ) (rows : List Run)
    → Held held rows
    → Held [] (recover_rows now tasks rows)
unfolding recover_rows
Held-recover now tasks held rows h =
    let k =
      Held-update (λ r. is_running r.status) revive held [] rows h
        (All-every (λ r _. revive_row r) rows) in
    elim (Bool-cases (ltb 0 (length tasks))) [
      | inl e ↦ rw e (
          Held-update (is_orphan tasks) (fail now no_task) [] [] _ k
            (All-every (λ r i. orphan_row now tasks r i) _))
      | inr e ↦ rw e k
    ]

-- A statement that ends the run with an id that is held.
finish-IsSafe :
    (id : ℕ) (f : Run → Run) (ending : List ℕ) (w : World)
    → ((r : Run) → Ends f r)
    → IsSafe w
    → IsSafe (record (on_rows (update_where (has_id id) f) w) {
      held = without id w.held;
      ending = ending;
    })
finish-IsSafe id f ending w ends s = record {
  consistent =
      update_where-IsConsistent (has_id id) f (λ r e. let x = ends r in (x.0, x.1, x.2, λ _. x.3))
        w.table.last_id w.table.rows s.consistent;
  distinct = Distinct-without id w.held s.distinct;
  bounded = All-without _ id w.held s.bounded;
  running_held =
      Held-update (has_id id) f w.held (without id w.held) w.table.rows s.running_held
        (All-every (λ r h. finish_row id f r w.held (ends r) h) w.table.rows);
}

planned_bounded :
    (last id : ℕ) (rows : List Run)
    → IsConsistent last rows
    → any_row (is_planned_id id) rows ≡ true
    → id ≤ last
unfolding any_row
planned_bounded last id [] h e = cc
planned_bounded last id (r ∷ rows) h e = elim (Bool-cases (is_planned_id id r)) [
  | inl p ↦ ground (arith, h.0)
  | inr n ↦ planned_bounded last id rows h.2 (ground arith)
]

insert-IsSafe :
    (new : Run) (w : World)
    → new.id ≡ suc w.table.last_id
    → is_running new.status ≡ false
    → index_refuses new.job_id new.payload w.table.rows ≡ false
    → IsSafe w
    → IsSafe (record w {
      table = record { rows = w.table.rows ++ new ∷ []; last_id = suc w.table.last_id };
    })
insert-IsSafe new w fresh idle free s = record {
  consistent =
      append-IsConsistent new w.table.last_id fresh w.table.rows s.consistent
        (clash_free new w.table.last_id w.table.rows fresh s.consistent free);
  distinct = s.distinct;
  bounded = All-mono (λ i h. omega arith) w.held s.bounded;
  running_held = Held-append w.held new w.table.rows s.running_held (
      idle ∙ sym (ap (λ i. member i w.held) fresh ∙ member_above w.table.last_id w.held s.bounded));
}

claim-IsSafe :
    (id now : ℕ) (w : World)
    → any_row (is_planned_id id) w.table.rows ≡ true
    → IsSafe w
    → IsSafe (record (on_rows (update_where (is_planned_id id) (start_run now)) w) {
      held = id ∷ w.held;
    })
claim-IsSafe id now w e s = record {
  consistent =
      update_where-IsConsistent (is_planned_id id) (start_run now)
        (λ r p. (refl, refl, refl, λ k. ground arith)) w.table.last_id w.table.rows s.consistent;
  distinct = (member_planned w.held id w.table.rows s.running_held e, s.distinct);
  bounded = (planned_bounded w.table.last_id id w.table.rows s.consistent e, s.bounded);
  running_held =
      Held-update (is_planned_id id) (start_run now) w.held (id ∷ w.held) w.table.rows
        s.running_held
        (All-mono (λ r p h. claim_row id now r w.held p h) w.table.rows
          (planned_ids w.table.last_id id w.table.rows s.consistent e));
}

-- Every statement of the interleaving keeps the invariant.
Step-IsSafe : {w v : World} → Step w v → IsSafe w → IsSafe v
Step-IsSafe (insert job payload retries now w id t e) s =
    let (free, same) = insert_row-some job payload retries now w.table id t e in
    subst (λ x. IsSafe (record w { table = x })) (sym same)
      (insert-IsSafe (planned_row (suc w.table.last_id) job payload retries now) w refl refl free s)
Step-IsSafe (cancel_planned id now w) s = record {
  consistent =
      update_where-IsConsistent (is_planned_id id) (cancel now)
        (λ r p. (refl, refl, refl, λ k. refl)) w.table.last_id w.table.rows s.consistent;
  distinct = s.distinct;
  bounded = s.bounded;
  running_held =
      Held-update (is_planned_id id) (cancel now) w.held w.held w.table.rows s.running_held
        (All-every (λ r h. cancel_row id now r w.held h) w.table.rows);
}
Step-IsSafe (claim id now w e) s = claim-IsSafe id now w e s
Step-IsSafe (finish_done id now text w e) s =
    finish-IsSafe id (complete now text) (id ∷ w.ending) w (λ r. (refl, refl, refl, refl, refl)) s
Step-IsSafe (finish_errored id now message w e) s =
    finish-IsSafe id (fail now message) (id ∷ w.ending) w (λ r. (refl, refl, refl, refl, refl)) s
Step-IsSafe (announced id w) s = record {
  consistent = s.consistent;
  distinct = s.distinct;
  bounded = s.bounded;
  running_held = s.running_held;
}
Step-IsSafe (recovered id now message w e) s =
    finish-IsSafe id (fail now message) (without id w.ending) w
      (λ r. (refl, refl, refl, refl, refl)) s
Step-IsSafe (clean clock now w) s = record {
  consistent =
      delete_where-IsConsistent (is_expired clock now) w.table.last_id w.table.rows s.consistent;
  distinct = s.distinct;
  bounded = s.bounded;
  running_held = Held-delete (is_expired clock now) w.held w.table.rows s.running_held;
}
Step-IsSafe (restart now tasks w) s = record {
  consistent = recover_rows-IsConsistent now tasks w.table.last_id w.table.rows s.consistent;
  distinct = tt;
  bounded = tt;
  running_held = Held-recover now tasks w.held w.table.rows s.running_held;
}

-- Whatever statements are interleaved from a safe state on, no two workers execute one run, a row
-- is running exactly while a worker executes it, and the table meets its constraints.
pub Reach-IsSafe : {w v : World} → IsSafe w → Reach w v → IsSafe v
Reach-IsSafe s here = s
Reach-IsSafe s (next r st) = Step-IsSafe st (Reach-IsSafe s r)
