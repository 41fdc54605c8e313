-- ===== src/Jobs/Sound.antt =====
-- Every operation of the job manager keeps the constraints of its table.
use mentis_eterna.Prelude.{
  ℕ, zero, suc, ◌+◌, String, Bool, true, false, Option, none, some, List, Bool-cases, Option-cases,
  length, inl, inr, refl, ltb, nat_key, string_key, arith,
}
use mentis_eterna.Jobs.Manager.{
  SqlTime, Manager, Definition, definition_by_id, tick_of, schedule_run, event_of, Result, ok, err,
  emit_event, running_event, set_rows, announce, EventType, insert_planned_run, enqueue_for,
  enqueue, retry_for, retry_run, cancel_run, recover_rows, is_orphan, zombie_recovery, janitor_task,
  find_definition, no_task, has_task, may_retry, is_expired,
}
use mentis_eterna.Jobs.Worker.{
  Observer, after_event, run_task, unless_panic, Outcome, succeeded, failed, panicked,
  pick_candidate, dequeue_loop, atomic_dequeue, record_outcome, execute, execute_claimed,
  worker_round,
}
use mentis_eterna.Jobs.Table.{
  running, is_running, Run, Table, index_refuses, insert_row, find_run, update_where, any_row,
  has_id, is_planned_id, planned_row, start_run, cancel, fail, complete, revive,
}
use mentis_eterna.Jobs.Unique.{
  IsConsistent, Tames, update_where-IsConsistent, delete_where-IsConsistent, append-IsConsistent,
  clash_free,
}

abbrev pub IsSound : Table → Type 0
IsSound t = IsConsistent t.last_id t.rows

-- What other goroutines do keeps every sound table sound.
abbrev pub KeepsSound : (Table → Table) → Type 0
KeepsSound between = (t : Table) → IsSound t → IsSound (between t)

module _ (between : Table → Table) (keeps : KeepsSound between) where
  insert_planned_run-IsSound :
      (job : ℕ) (payload : Option String) (retries now : ℕ) (m : Manager)
      → IsSound m.table
      → IsSound (insert_planned_run between job payload retries now m).1.table
  unfolding insert_planned_run insert_row
  insert_planned_run-IsSound job payload retries now m h =
      elim (Bool-cases (index_refuses job payload m.table.rows)) [
        | inl refused ↦ rw (refused, insert_planned_run) (keeps m.table h)
        | inr free ↦
            rw (free, insert_planned_run)
              (append-IsConsistent (planned_row (suc m.table.last_id) job payload retries now)
                m.table.last_id refl m.table.rows h
                (clash_free (planned_row (suc m.table.last_id) job payload retries now)
                  m.table.last_id m.table.rows refl h free))
      ]

  announce-IsSound :
      (type : EventType) (job : ℕ) (r : Result (ℕ × Bool) × Manager)
      → IsSound r.1.table
      → IsSound (announce type job r).1.table
  unfolding emit_event
  announce-IsSound type job (err e, m) h = h
  announce-IsSound type job (ok (id, true), m) h = h
  announce-IsSound type job (ok (id, false), m) h = h

  enqueue-IsSound :
      (plugin name : String) (payload : Option String) (now : ℕ) (m : Manager)
      → IsSound m.table
      → IsSound (enqueue between plugin name payload now m).1.table
  unfolding enqueue
  enqueue-IsSound plugin name payload now m h = go (find_definition plugin name m.definitions)
    where
      go : (found : Option ℕ) → IsSound (enqueue_for between found payload now m).1.table
      go none = h
      go (some job) = announce-IsSound _ job _ (insert_planned_run-IsSound job payload 0 now m h)

  retry_run-IsSound :
      (id now : ℕ) (m : Manager) → IsSound m.table → IsSound (retry_run between id now m).1.table
  unfolding retry_run
  retry_run-IsSound id now m h = go (find_run id m.table.rows)
    where
      go : (found : Option Run) → IsSound (retry_for between found now m).1.table
      go none = h
      go (some r) = elim (Bool-cases (may_retry r.status)) [
        | inl e ↦ rw e (
            announce-IsSound _ r.job_id _
              (insert_planned_run-IsSound r.job_id r.payload (r.retry_count + 1) now m h))
        | inr e ↦ rw e h
      ]

settle-IsSound :
    (p : Run → Bool) (f : Run → Run) (m : Manager)
    → Tames p f
    → IsSound m.table
    → IsSound (set_rows (update_where p f m.table.rows) m).table
settle-IsSound p f m tame h = update_where-IsConsistent p f tame m.table.last_id m.table.rows h

cancel_run-IsSound :
    (id now : ℕ) (m : Manager) → IsSound m.table → IsSound (cancel_run id now m).1.table
unfolding cancel_run emit_event
cancel_run-IsSound id now m h =
    let k =
      settle-IsSound (is_planned_id id) (cancel now) m (λ r e. (refl, refl, refl, λ k. refl)) h in
    elim (Bool-cases (any_row (is_planned_id id) m.table.rows)) [ inl e ↦ rw e k | inr e ↦ rw e k ]

revive-Tames : Tames (λ r. is_running r.status) revive
revive-Tames r h = (refl, refl, refl, λ k. ground arith)

pub recover_rows-IsConsistent :
    (now : ℕ) (tasks : List ℕ) (last : ℕ) (rows : List Run)
    → IsConsistent last rows
    → IsConsistent last (recover_rows now tasks rows)
unfolding recover_rows
recover_rows-IsConsistent now tasks last rows h =
    let k = update_where-IsConsistent (λ r. is_running r.status) revive revive-Tames last rows h in
    elim (Bool-cases (ltb 0 (length tasks))) [
      | inl e ↦ rw e (
          update_where-IsConsistent (is_orphan tasks) (fail now no_task)
            (λ r e. (refl, refl, refl, λ k. refl)) last _ k)
      | inr e ↦ rw e k
    ]

zombie_recovery-IsSound :
    (now : ℕ) (m : Manager) → IsSound m.table → IsSound (zombie_recovery now m).table
unfolding zombie_recovery
zombie_recovery-IsSound now m h =
    recover_rows-IsConsistent now m.tasks m.table.last_id m.table.rows h

janitor_task-IsSound :
    (clock : SqlTime) (now : ℕ) (m : Manager)
    → IsSound m.table
    → IsSound (janitor_task clock now m).table
unfolding janitor_task
janitor_task-IsSound clock now m h =
    delete_where-IsConsistent (is_expired clock now) m.table.last_id m.table.rows h

start_run-Tames : (id now : ℕ) → Tames (is_planned_id id) (start_run now)
start_run-Tames id now r h = (refl, refl, refl, λ k. ground arith)

dequeue_loop-IsSound :
    (attempts : ℕ) (between : ℕ → Table → Table) (now : ℕ) (t : Table)
    → ((k : ℕ) → KeepsSound (between k))
    → IsSound t
    → IsSound (dequeue_loop attempts between now t).1
unfolding dequeue_loop
dequeue_loop-IsSound zero between now t keeps h = h
dequeue_loop-IsSound (suc attempts) between now t keeps h =
    elim (Option-cases (pick_candidate t.rows)) [
      | inl e ↦ rw (e, dequeue_loop) h
      | inr (r, e) ↦
          let t' = between attempts t in
          rw (e, dequeue_loop)
            (elim (Bool-cases (any_row (is_planned_id r.id) t'.rows)) [
              | inl k ↦ rw k (
                  update_where-IsConsistent (is_planned_id r.id) (start_run now)
                    (start_run-Tames r.id now) t'.last_id t'.rows (keeps attempts t h))
              | inr k ↦
                  rw k (dequeue_loop-IsSound attempts between now t' keeps (keeps attempts t h))
            ])
    ]

fail-IsSound :
    (now id : ℕ) (message : String) (m : Manager)
    → IsSound m.table
    → IsSound (set_rows (update_where (has_id id) (fail now message) m.table.rows) m).table
fail-IsSound now id message m h =
    settle-IsSound (has_id id) (fail now message) m (λ r e. (refl, refl, refl, λ k. refl)) h

after_event-IsSound :
    (o : Option String) (now : ℕ) (r : Run) (m : Manager)
    → IsSound m.table
    → IsSound (after_event o now r m).table
unfolding emit_event
after_event-IsSound none now r m h = h
after_event-IsSound (some message) now r m h = fail-IsSound now r.id message m h

record_outcome-IsSound :
    (observer : Observer) (now : ℕ) (r : Run) (o : Outcome) (m : Manager)
    → IsSound m.table
    → IsSound (record_outcome observer now r o m).table
unfolding record_outcome emit_event
record_outcome-IsSound observer now r (succeeded text) m h =
    after_event-IsSound _ now r _
      (settle-IsSound (has_id r.id) (complete now text) m (λ r e. (refl, refl, refl, λ k. refl)) h)
record_outcome-IsSound observer now r (failed text) m h =
    after_event-IsSound _ now r _ (fail-IsSound now r.id text m h)
record_outcome-IsSound observer now r (panicked text) m h = fail-IsSound now r.id text m h

module _ (observer : Observer) (task : Run → Manager → Outcome × Manager)
    (keeps : (r : Run) (m : Manager) → IsSound m.table → IsSound (task r m).1.table) where
  run_task-IsSound :
      (now : ℕ) (r : Run) (m : Manager)
      → IsSound m.table
      → IsSound (run_task observer task now r m).table
  unfolding emit_event
  run_task-IsSound now r m h = elim (Bool-cases (has_task r.job_id m.tasks)) [
    | inl e ↦ rw e (record_outcome-IsSound observer now r (task r m).0 (task r m).1 (keeps r m h))
    | inr e ↦ rw e (fail-IsSound now r.id no_task m h)
  ]

  unless_panic-IsSound :
      (o : Option String) (m next : Manager)
      → IsSound m.table
      → IsSound next.table
      → IsSound (unless_panic o m next).table
  unless_panic-IsSound none m next h k = k
  unless_panic-IsSound (some message) m next h k = h

  execute_claimed-IsSound :
      (now : ℕ) (r : Option Run) (m : Manager)
      → IsSound m.table
      → IsSound (execute_claimed observer task now r m).table
  unfolding execute emit_event
  execute_claimed-IsSound now none m h = h
  execute_claimed-IsSound now (some r) m h =
      let m' = emit_event running_event r.id r.job_id running none none m in
      unless_panic-IsSound (observer (event_of running_event r.id r.job_id running none none m)) m'
        (run_task observer task now r m') h (run_task-IsSound now r m' h)

  worker_round-IsSound :
      (between : ℕ → Table → Table) (start finish : ℕ) (m : Manager)
      → ((k : ℕ) → KeepsSound (between k))
      → IsSound m.table
      → IsSound (worker_round between observer task start finish m).table
  unfolding worker_round atomic_dequeue
  worker_round-IsSound between start finish m quiet h =
      execute_claimed-IsSound finish (dequeue_loop 3 between start m.table).0 _
        (dequeue_loop-IsSound 3 between start m.table quiet h)

schedule_run-IsSound :
    (job now : ℕ) (m : Manager) → IsSound m.table → IsSound (schedule_run job now m).table
unfolding schedule_run insert_row emit_event
schedule_run-IsSound job now m h = go (definition_by_id job m.definitions)
  where
    go : (o : Option Definition) → IsSound (tick_of job o now m).table
    go none = h
    go (some d) = elim (Bool-cases d.enabled) [
      | inl on ↦ rw on (elim (Bool-cases (index_refuses job none m.table.rows)) [
        | inl refused ↦ rw refused h
        | inr free ↦ rw free (
            append-IsConsistent (planned_row (suc m.table.last_id) job none 0 now) m.table.last_id
              refl m.table.rows h
              (clash_free (planned_row (suc m.table.last_id) job none 0 now) m.table.last_id
                m.table.rows refl h free))
      ])
      | inr off ↦ rw off h
    ]

-- From a table that meets its constraints (distinct ids, none above the last one, no two active runs
-- of one job and payload), the operations of clients, of the scheduler, of the janitor, of a worker
-- and of a restart lead to such a table, if what other goroutines do between the statements of one
-- operation, insertions included, keeps the constraints, and the task does.
operations-IsSound :
    (between : ℕ → Table → Table) (observer : Observer) (task : Run → Manager → Outcome × Manager)
    (clock : SqlTime) (plugin name : String) (payload : Option String) (id now later : ℕ)
    (m : Manager)
    → ((k : ℕ) → KeepsSound (between k))
    → ((r : Run) (m : Manager) → IsSound m.table → IsSound (task r m).1.table)
    → IsSound m.table
    → IsSound (enqueue (between 0) plugin name payload now m).1.table
      × IsSound (retry_run (between 0) id now m).1.table
      × IsSound (cancel_run id now m).1.table
      × IsSound (schedule_run id now m).table
      × IsSound (zombie_recovery now m).table
      × IsSound (janitor_task clock now m).table
      × IsSound (worker_round between observer task now later m).table
operations-IsSound between observer task clock plugin name payload id now later m quiet keeps h = (
  enqueue-IsSound (between 0) (quiet 0) plugin name payload now m h,
  retry_run-IsSound (between 0) (quiet 0) id now m h,
  cancel_run-IsSound id now m h,
  schedule_run-IsSound id now m h,
  zombie_recovery-IsSound now m h,
  janitor_task-IsSound clock now m h,
  worker_round-IsSound observer task keeps between now later m quiet h,
)
