-- ===== src/Jobs/Worker.antt =====
-- `atomicDequeue` and one round of `runWorker` of internal/jobs/jobs.go.
use mentis_eterna.Prelude.{
  ℕ, zero, suc, String, Option, none, some, List, [], ◌∷◌, leb, if◌then◌else◌,
}
use mentis_eterna.Jobs.Table.{
  running, done, errored, is_planned, Run, Table, update_where, any_row, has_id, is_planned_id,
  start_run, fail, complete,
}
use mentis_eterna.Jobs.Manager.{
  Manager, running_event, errored_event, done_event, event_of, emit_event, RunEvent, set_rows,
  has_task, no_task,
}

abbrev pub older : Run → Option Run → Run
older r none = r
older r (some q) = if leb r.created_at q.created_at then r else q

-- SELECT … WHERE status = 'planned' ORDER BY created_at ASC LIMIT 1. Of rows of one age the first
-- in the table is taken.
unfoldable pub pick_candidate : List Run → Option Run
pick_candidate [] = none
pick_candidate (r ∷ rows) =
    let rest = pick_candidate rows in if is_planned r.status then some (older r rest) else rest

-- The loop of `atomicDequeue` with so many attempts left. `between` is what other goroutines do to
-- the table between the SELECT and the UPDATE of an attempt.
unfoldable pub dequeue_loop : ℕ → (ℕ → Table → Table) → ℕ → Table → Option Run × Table
dequeue_loop zero between now t = (none, t)
dequeue_loop (suc attempts) between now t = elim (pick_candidate t.rows) [
  | none ↦ (none, t)
  | some r ↦
      let t' = between attempts t in
      let again = dequeue_loop attempts between now t' in
      if any_row (is_planned_id r.id) t'.rows
      then (some r, record t' { rows = update_where (is_planned_id r.id) (start_run now) t'.rows })
      else again
]

unfoldable pub atomic_dequeue : (ℕ → Table → Table) → ℕ → Table → Option Run × Table
unfolding dequeue_loop
atomic_dequeue between now t = dequeue_loop 3 between now t

-- How a task ends. `panicked` carries the message `panic: …` of the recovery.
pub data Outcome : Type 0 where
  succeeded failed panicked : String → Outcome

-- What the observer makes of an event: the message `panic: …` of the recovery, if it panics.
abbrev pub Observer : Type 0
Observer = RunEvent → Option String

-- The UPDATE … WHERE id = ? that ends a run, and its event.
abbrev pub settle : (Run → Run) → ℕ → Manager → Manager
settle f id m = set_rows (update_where (has_id id) f m.table.rows) m

-- The deferred recovery. Where the observer panics here too, the process ends.
abbrev pub recover_panic : ℕ → Run → String → Manager → Manager
recover_panic now r message m =
    emit_event errored_event r.id r.job_id errored none (some message)
      (settle (fail now message) r.id m)

-- The recovery covers the call of the observer at the end of a run as well.
abbrev pub after_event : Option String → ℕ → Run → Manager → Manager
after_event none now r m = m
after_event (some message) now r m = recover_panic now r message m

unfoldable pub record_outcome : Observer → ℕ → Run → Outcome → Manager → Manager
unfolding event_of
record_outcome observer now r (succeeded text) m =
    let m' = settle (complete now text) r.id m in
    after_event (observer (event_of done_event r.id r.job_id done (some text) none m')) now r
      (emit_event done_event r.id r.job_id done (some text) none m')
record_outcome observer now r (failed message) m =
    let m' = settle (fail now message) r.id m in
    after_event (observer (event_of errored_event r.id r.job_id errored none (some message) m')) now
      r (emit_event errored_event r.id r.job_id errored none (some message) m')
record_outcome observer now r (panicked message) m = recover_panic now r message m

abbrev pub missing_task : ℕ → Run → Manager → Manager
missing_task now r m =
    emit_event errored_event r.id r.job_id errored none (some no_task)
      (settle (fail now no_task) r.id m)

abbrev pub run_task : Observer → (Run → Manager → Outcome × Manager) → ℕ → Run → Manager → Manager
run_task observer task now r m =
    if has_task r.job_id m.tasks
    then (let (outcome, m') = task r m in record_outcome observer now r outcome m')
    else missing_task now r m

-- The first event is outside the recovery: a panic there ends the process.
abbrev pub unless_panic : Option String → Manager → Manager → Manager
unless_panic none m next = next
unless_panic (some message) m next = m

-- What the worker does with a run that it has claimed. `task` runs the task on the whole state,
-- since a task may change the table too.
unfoldable pub execute :
    Observer → (Run → Manager → Outcome × Manager) → ℕ → Run → Manager → Manager
unfolding event_of has_task record_outcome
execute observer task now r m =
    let m' = emit_event running_event r.id r.job_id running none none m in
    unless_panic (observer (event_of running_event r.id r.job_id running none none m)) m'
      (run_task observer task now r m')

abbrev pub execute_claimed :
    Observer → (Run → Manager → Outcome × Manager) → ℕ → Option Run → Manager → Manager
execute_claimed observer task now none m = m
execute_claimed observer task now (some r) m = execute observer task now r m

-- One round of the worker's loop: claim a run and execute it, or find nothing to do.
unfoldable pub worker_round :
    (ℕ → Table → Table) → Observer → (Run → Manager → Outcome × Manager) → ℕ → ℕ → Manager → Manager
worker_round between observer task start finish m =
    let (claimed, t) = atomic_dequeue between start m.table in
    execute_claimed observer task finish claimed (record m { table = t })
