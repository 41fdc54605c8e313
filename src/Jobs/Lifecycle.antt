-- ===== src/Jobs/Lifecycle.antt =====
-- A run that has ended and was announced stays as it is until the janitor deletes it, and no later run has its id.
use mathlib.Core.List.{Memᴰ}
use mentis_eterna.Prelude.{
  ℕ, ◌≤◌, Bool, true, false, ◌||◌, List, [], ◌∷◌, ◌++◌, All, Bool-cases, inl, inr, ◌≡◌, refl, sym,
  ◌∙◌, ap, subst, ltb, length, nat_key, nat_beq, nat_beq_iff, arith, if◌then◌else◌,
}
use mentis_eterna.Jobs.Table.{
  is_running, is_active, Run, update_where, any_row, delete_where, has_id, is_planned_id, start_run,
  cancel, fail, complete, revive,
}
use mentis_eterna.Jobs.Manager.{no_task, is_orphan, recover_rows, is_expired}
use mentis_eterna.Jobs.Unique.{clash, IsConsistent}
use mentis_eterna.Jobs.Interleaving.{
  World, member, without, on_rows, Step, insert, cancel_planned, claim, finish_done, finish_errored,
  announced, recovered, clean, restart, Reach, here, next,
}
use mentis_eterna.Jobs.Claimed.{Held, IsSafe, All-mono, insert_row-some, member-without}

-- The table has no row with the id of `r` but `r` itself, and no worker executes or announces it.
record Frozen (r : Run) (w : World) : Type 0 where
  given : r.id ≤ w.table.last_id
  idle : member r.id w.held ≡ false
  quiet : member r.id w.ending ≡ false
  alone : All (λ q. nat_beq q.id r.id ≡ true → q ≡ r) w.table.rows

changed_row :
    (r : Run) (p : Run → Bool) (f : Run → Run) (q : Run)
    → p r ≡ false
    → ((x : Run) → (f x).id ≡ x.id)
    → (nat_beq q.id r.id ≡ true → q ≡ r)
    → nat_beq (if p q then f q else q).id r.id ≡ true
    → (if p q then f q else q) ≡ r
changed_row r p f q e same k i = elim (Bool-cases (p q)) [
  | inl t ↦
      let j : nat_beq (f q).id r.id ≡ true = rw t at i in
      let g : q ≡ r = k (ap (λ n. nat_beq n r.id) (sym (same q)) ∙ j) in cc (t, e, ap p g)
  | inr n ↦ rw n (k (rw n at i))
]

alone_update :
    (r : Run) (p : Run → Bool) (f : Run → Run)
    → p r ≡ false
    → ((q : Run) → (f q).id ≡ q.id)
    → (rows : List Run) → All (λ q. nat_beq q.id r.id ≡ true → q ≡ r) rows
    → All (λ q. nat_beq q.id r.id ≡ true → q ≡ r) (update_where p f rows)
unfolding update_where
alone_update r p f e same [] h = tt
alone_update r p f e same (q ∷ rows) h =
    (λ i. changed_row r p f q e same h.0 i, alone_update r p f e same rows h.1)

alone_delete :
    (P : Run → Type 0) (p : Run → Bool) (rows : List Run) → All P rows → All P (delete_where p rows)
unfolding delete_where
alone_delete P p [] h = tt
alone_delete P p (q ∷ rows) h = elim (Bool-cases (p q)) [
  | inl e ↦ rw e (alone_delete P p rows h.1)
  | inr e ↦ rw e (h.0, alone_delete P p rows h.1)
]

alone_append :
    (P : Run → Type 0) (new : Run) (rows : List Run) → All P rows → P new → All P (rows ++ new ∷ [])
alone_append P new [] h k = (k, tt)
alone_append P new (q ∷ rows) h k = (h.0, alone_append P new rows h.1 k)

All-at : (P : Run → Type 0) (r : Run) (rows : List Run) → All P rows → Memᴰ r rows → P r
All-at P r [] h m = elim m [ ]
All-at P r (q ∷ rows) h (Memᴰ.head e) = subst P (sym e) h.0
All-at P r (q ∷ rows) h (Memᴰ.tail m) = All-at P r rows h.1 m

-- In a table that meets its constraints, a row is the only one with its id.
alone_of_mem :
    (r : Run) (last : ℕ) (rows : List Run)
    → IsConsistent last rows
    → Memᴰ r rows
    → (r.id ≤ last) × All (λ q. nat_beq q.id r.id ≡ true → q ≡ r) rows
alone_of_mem r last [] h m = elim m [ ]
alone_of_mem r last (q ∷ rows) h (Memᴰ.head e) =
    subst (λ x. (x.id ≤ last) × All (λ y. nat_beq y.id x.id ≡ true → y ≡ x) (q ∷ rows)) (sym e)
      (h.0, (λ _. refl, All-mono (λ x c same. absurd (ground arith)) rows h.1))
alone_of_mem r last (q ∷ rows) h (Memᴰ.tail m) =
    let (le, al) = alone_of_mem r last rows h.2 m in
    let c = All-at (λ x. clash q x ≡ false) r rows h.1 m in
    (le, (λ same. absurd (ground (arith, c)), al))

not_held :
    (id j : ℕ) (held : List ℕ)
    → member id held ≡ true
    → member j held ≡ false
    → nat_beq j id ≡ false
not_held id j held e i = elim (Bool-cases (nat_beq j id)) [
  | inl t ↦ cc (e, i, ap (λ k. member k held) ((nat_beq_iff j id).0 t))
  | inr n ↦ n
]

settled_idle :
    (r : Run) (held : List ℕ) (rows : List Run)
    → Held held rows
    → Memᴰ r rows
    → is_active r.status ≡ false
    → member r.id held ≡ false
settled_idle r held rows h m e =
    sym (All-at (λ x. is_running x.status ≡ member x.id held) r rows h m) ∙ ground arith

not_planned : (r : Run) (id : ℕ) → is_active r.status ≡ false → is_planned_id id r ≡ false
not_planned r id h = ground arith

claim_apart :
    (r : Run) (id : ℕ) (rows : List Run)
    → is_active r.status ≡ false
    → All (λ q. nat_beq q.id r.id ≡ true → q ≡ r) rows
    → any_row (is_planned_id id) rows ≡ true
    → nat_beq id r.id ≡ false
unfolding any_row
claim_apart r id [] h al e = cc
claim_apart r id (q ∷ rows) h al e = elim (Bool-cases (is_planned_id id q)) [
  | inl p ↦ elim (Bool-cases (nat_beq id r.id)) [
    | inl t ↦
        let same : q ≡ r = al.0 (ground arith) in
        cc (p, not_planned r id h, ap (is_planned_id id) same)
    | inr n ↦ n
  ]
  | inr n ↦ claim_apart r id rows h al.1 (ground arith)
]

recover_alone :
    (r : Run) (now : ℕ) (tasks : List ℕ) (rows : List Run)
    → is_active r.status ≡ false
    → All (λ q. nat_beq q.id r.id ≡ true → q ≡ r) rows
    → All (λ q. nat_beq q.id r.id ≡ true → q ≡ r) (recover_rows now tasks rows)
unfolding recover_rows
recover_alone r now tasks rows h al =
    let k = alone_update r (λ q. is_running q.status) revive (ground arith) (λ q. refl) rows al in
    elim (Bool-cases (ltb 0 (length tasks))) [
      | inl e ↦
          rw e (alone_update r (is_orphan tasks) (fail now no_task) (ground arith) (λ q. refl) _ k)
      | inr e ↦ rw e k
    ]

-- An UPDATE of the run with another id.
finish-Frozen :
    (r : Run) (id : ℕ) (f : Run → Run) (ending : List ℕ) (w : World)
    → ((q : Run) → (f q).id ≡ q.id)
    → nat_beq r.id id ≡ false
    → member r.id ending ≡ false
    → Frozen r w
    → Frozen r (record (on_rows (update_where (has_id id) f) w) {
      held = without id w.held;
      ending = ending;
    })
finish-Frozen r id f ending w same e q z = record {
  given = z.given;
  idle = ground (arith, member-without id r.id w.held, z.idle);
  quiet = q;
  alone = alone_update r (has_id id) f e same w.table.rows z.alone;
}

still_quiet :
    (id j : ℕ) (ending : List ℕ)
    → nat_beq j id ≡ false
    → member j ending ≡ false
    → member j (id ∷ ending) ≡ false
still_quiet id j ending e q = ground (arith, e, q)

not_in_hand :
    (id j : ℕ) (w : World)
    → (member id w.held || member id w.ending) ≡ true
    → member j w.held ≡ false
    → member j w.ending ≡ false
    → nat_beq j id ≡ false
not_in_hand id j w e idle quiet = elim (Bool-cases (member id w.held)) [
  | inl h ↦ not_held id j w.held h idle
  | inr n ↦ not_held id j w.ending (rw n at e) quiet
]

Step-Frozen :
    (r : Run) {w v : World} → is_active r.status ≡ false → Step w v → Frozen r w → Frozen r v
Step-Frozen r h (insert job payload retries now w id t e) z =
    let (free, same) = insert_row-some job payload retries now w.table id t e in
    subst (λ x. Frozen r (record w { table = x })) (sym same)
      (record {
        given = omega (arith, z.given);
        idle = z.idle;
        quiet = z.quiet;
        alone = alone_append _ _ w.table.rows z.alone (λ i. absurd (ground (arith, z.given)));
      })
Step-Frozen r h (cancel_planned id now w) z = record {
  given = z.given;
  idle = z.idle;
  quiet = z.quiet;
  alone =
      alone_update r (is_planned_id id) (cancel now) (not_planned r id h) (λ q. refl) w.table.rows
        z.alone;
}
Step-Frozen r h (claim id now w e) z = record {
  given = z.given;
  idle = ground (arith, claim_apart r id w.table.rows h z.alone e, z.idle);
  quiet = z.quiet;
  alone =
      alone_update r (is_planned_id id) (start_run now) (not_planned r id h) (λ q. refl)
        w.table.rows z.alone;
}
Step-Frozen r h (finish_done id now text w e) z =
    let apart = not_held id r.id w.held e z.idle in
    finish-Frozen r id (complete now text) (id ∷ w.ending) w (λ q. refl) apart
      (still_quiet id r.id w.ending apart z.quiet) z
Step-Frozen r h (finish_errored id now message w e) z =
    let apart = not_held id r.id w.held e z.idle in
    finish-Frozen r id (fail now message) (id ∷ w.ending) w (λ q. refl) apart
      (still_quiet id r.id w.ending apart z.quiet) z
Step-Frozen r h (announced id w) z = record {
  given = z.given;
  idle = z.idle;
  quiet = ground (arith, member-without id r.id w.ending, z.quiet);
  alone = z.alone;
}
Step-Frozen r h (recovered id now message w e) z =
    finish-Frozen r id (fail now message) (without id w.ending) w (λ q. refl)
      (not_in_hand id r.id w e z.idle z.quiet)
      (ground (arith, member-without id r.id w.ending, z.quiet)) z
Step-Frozen r h (clean clock now w) z = record {
  given = z.given;
  idle = z.idle;
  quiet = z.quiet;
  alone = alone_delete _ (is_expired clock now) w.table.rows z.alone;
}
Step-Frozen r h (restart now tasks w) z = record {
  given = z.given;
  idle = refl;
  quiet = refl;
  alone = recover_alone r now tasks w.table.rows h z.alone;
}

Reach-Frozen :
    (r : Run) {w v : World} → is_active r.status ≡ false → Reach w v → Frozen r w → Frozen r v
Reach-Frozen r h here z = z
Reach-Frozen r h (next p st) z = Step-Frozen r h st (Reach-Frozen r h p z)

-- From a safe state on, whatever statements are interleaved, a run that has ended (done, errored or
-- cancelled), and that no worker is announcing to the observer any more, never changes, and no other
-- row ever gets its id.
pub Reach-settled :
    (r : Run) {w v : World}
    → IsSafe w
    → Memᴰ r w.table.rows
    → is_active r.status ≡ false
    → member r.id w.ending ≡ false
    → Reach w v
    → All (λ q. nat_beq q.id r.id ≡ true → q ≡ r) v.table.rows
Reach-settled r {w} {v} s m h quiet p =
    let (le, al) = alone_of_mem r w.table.last_id w.table.rows s.consistent m in
    (Reach-Frozen r h p (record {
      given = le;
      idle = settled_idle r w.held w.table.rows s.running_held m h;
      quiet = quiet;
      alone = al;
    })).alone
