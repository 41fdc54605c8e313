-- ===== src/Jobs/Scenarios.antt =====
-- Runs of the job system.
use mathlib.Core.List.{Memᴰ}
use mathlib.Core.Option
use mentis_eterna.Prelude.{
  All, [], arith, if◌then◌else◌, nat_beq, none, refl, some, true, ℕ, ◌%◌, ◌*◌, ◌+◌, ◌-◌, ◌/◌, ◌<◌,
  ◌↔◌, ◌∷◌, ◌≡◌, ◌≤◌,
}
use mentis_eterna.Jobs.Table.{
  Run, Status, Table, any_row, cancel, complete, delete_where, fail, find_run, has_id,
  is_planned_id, payload_clash, planned_row, start_run, update_where,
}
use mentis_eterna.Jobs.Manager.{
  Manager, SqlTime, cancel_run, day_ms, emit_event, enqueue, err, event_of, find_definition,
  has_task, is_expired, is_less, janitor_task, lookup_definition, not_planned, ok,
}
use mentis_eterna.Jobs.Worker.{
  Observer, Outcome, atomic_dequeue, dequeue_loop, execute, pick_candidate, record_outcome,
  succeeded, worker_round,
}
use mentis_eterna.Jobs.Schedule.{hour, next_sleep, parse_simple_schedule, next_sleep_aligned}
use mentis_eterna.Jobs.Sound.{IsSound}
use mentis_eterna.Jobs.Fifo.{Claims, atomic_dequeue-Claims}
use mentis_eterna.Jobs.Interleaving.{World, Reach, here, next, claim, on_rows}
use mentis_eterna.Jobs.Claimed.{IsSafe}
use mentis_eterna.Jobs.Exclusion.{Reach-IsSafe}
use mentis_eterna.Jobs.Lifecycle.{Reach-settled}
use mentis_eterna.Jobs.Requests.{quiet, Again, planned_at, enqueue_twice, cancel_run_outcome}
use mentis_eterna.Jobs.Janitor.{IsCalendar, janitor_task_dates}
use mentis_eterna.Jobs.Recovery.{record_outcome-errored}

-- A manager with one definition and its task, and two planned runs of it.
abbrev first : Run
first = planned_row 1 7 (some "a") 0 2_000

abbrev second : Run
second = planned_row 2 7 none 0 1_000

abbrev two : Table
two = record { rows = first ∷ second ∷ []; last_id = 2 }

abbrev manager : Manager
manager = record {
  table = two;
  definitions =
      record { id = 7; plugin_id = "media"; name = "ocr"; schedule = ""; enabled = true } ∷ [];
  last_definition = 7;
  tasks = 7 ∷ [];
  defs = [];
  events = [];
}

two-IsSound : IsSound two
unfolding payload_clash
two-IsSound = (omega arith, (refl, tt), (omega arith, tt, tt))

-- A clock whose dates are one character each.
abbrev simple_clock : SqlTime
simple_clock = record { date = λ d. d ∷ []; fraction = λ t. []; seconds = λ t. [] }

abbrev calm : Observer
calm e = none

abbrev no_change : Run → Manager → Outcome × Manager
no_change r m = (succeeded "ok", m)

-- The older run is claimed first and ends done.
round_done :
    find_run 2 (worker_round (λ _ t. t) calm no_change 3_000 4_000 manager).table.rows
    ≡ some (complete 4_000 "ok" (start_run 3_000 second))
unfolding worker_round atomic_dequeue dequeue_loop pick_candidate any_row update_where execute
    emit_event has_task record_outcome find_run lookup_definition
round_done = refl

-- Another worker takes the candidate between the SELECT and the UPDATE: the next attempt takes the
-- other run.
race_retried :
    (atomic_dequeue
      (λ k t.
        if nat_beq k 2
        then record t { rows = update_where (is_planned_id 2) (start_run 9) t.rows }
        else t)
      3_000
      two).0
    ≡ some first
unfolding atomic_dequeue dequeue_loop pick_candidate any_row update_where
race_retried = refl

atomic_dequeue-Claims_example : Claims 3_000 two (atomic_dequeue (λ _ others. others) 3_000 two)
atomic_dequeue-Claims_example = atomic_dequeue-Claims 3_000 two

abbrev world : World
world = record { table = two; held = []; ending = [] }

world-IsSafe : IsSafe world
unfolding payload_clash
world-IsSafe = record {
  consistent = (omega arith, (refl, tt), (omega arith, tt, tt));
  distinct = tt;
  bounded = tt;
  running_held = (refl, (refl, tt));
}

abbrev claimed : World
claimed = record (on_rows (update_where (is_planned_id 2) (start_run 3_000)) world) {
  held = 2 ∷ [];
}

claim_second : Reach world claimed
unfolding any_row
claim_second = next here (claim 2 3_000 world refl)

Reach-IsSafe_example : IsSafe claimed
Reach-IsSafe_example = Reach-IsSafe world-IsSafe claim_second

abbrev ended : Run
ended = complete 2_500 "ok" (start_run 2_000 second)

abbrev ended_world : World
ended_world = record {
  table = record { rows = first ∷ ended ∷ []; last_id = 2 };
  held = [];
  ending = [];
}

ended_world-IsSafe : IsSafe ended_world
unfolding payload_clash
ended_world-IsSafe = record {
  consistent = (omega arith, (refl, tt), (omega arith, tt, tt));
  distinct = tt;
  bounded = tt;
  running_held = (refl, (refl, tt));
}

abbrev first_claimed : World
first_claimed = record (on_rows (update_where (is_planned_id 1) (start_run 3_000)) ended_world) {
  held = 1 ∷ [];
}

claim_first : Reach ended_world first_claimed
unfolding any_row
claim_first = next here (claim 1 3_000 ended_world refl)

Reach-settled_example : All (λ q. nat_beq q.id 2 ≡ true → q ≡ ended) first_claimed.table.rows
Reach-settled_example =
    Reach-settled ended ended_world-IsSafe (Memᴰ.tail (Memᴰ.head refl)) refl refl claim_first

enqueue_twice_example :
    Again "media" "ocr" "b" 4_000 (enqueue quiet "media" "ocr" (some "b") 3_000 manager)
unfolding find_definition
enqueue_twice_example = enqueue_twice "media" "ocr" "b" 3_000 4_000 7 manager refl

cancel_run_outcome_example :
    ((cancel_run 2 3_000 manager).0
      ≡ (if planned_at (find_run 2 two.rows) then ok tt else err not_planned))
    × (find_run 2 (cancel_run 2 3_000 manager).1.table.rows
        ≡ Option.map (λ r. if is_planned_id 2 r then cancel 3_000 r else r) (find_run 2 two.rows))
cancel_run_outcome_example = cancel_run_outcome 2 3_000 2 manager two-IsSound

abbrev today : ℕ
today = 30 * day_ms + 5_000

first_left : Memᴰ first (janitor_task simple_clock today manager).table.rows
unfolding janitor_task delete_where is_expired is_less
first_left = Memᴰ.head refl

simple_clock-IsCalendar : IsCalendar simple_clock
unfolding is_less
simple_clock-IsCalendar = record {
  same_length = λ a b. refl;
  increasing = λ a b h. ground (arith, h);
}

-- A run that is 30 days and 3 seconds old stays.
janitor_task_dates_example :
    Memᴰ first (janitor_task simple_clock (30 * day_ms + 5_000) manager).table.rows ↔ (
      Memᴰ first two.rows
      × ((30 * day_ms + 5_000 - 30 * day_ms) / day_ms ≤ first.created_at / day_ms))
janitor_task_dates_example =
    janitor_task_dates simple_clock (30 * day_ms + 5_000) manager first simple_clock-IsCalendar

-- The observer panics when a run is done.
abbrev breaking : Observer
breaking e = elim e.status [ Status.done ↦ some "panic: send on closed channel" | _ ↦ none ]

record_outcome-errored_example :
    (find_run 2 (record_outcome breaking 4_000 second (succeeded "ok") manager).table.rows
      ≡ Option.map
          (λ q. fail 4_000 "panic: send on closed channel" (complete 4_000 "ok" q))
          (find_run 2 two.rows))
    × ((record_outcome breaking 4_000 second (succeeded "ok") manager).table.rows
        ≡ update_where
            (has_id 2)
            (λ q. fail 4_000 "panic: send on closed channel" (complete 4_000 "ok" q))
            two.rows)
unfolding event_of
record_outcome-errored_example =
    record_outcome-errored breaking 4_000 second "ok" "panic: send on closed channel" manager refl

next_sleep_aligned_example :
    (0 < next_sleep "@hourly" hour 1_234)
    × (next_sleep "@hourly" hour 1_234 ≤ hour)
    × ((1_234 + next_sleep "@hourly" hour 1_234) % hour ≡ 0)
unfolding parse_simple_schedule
next_sleep_aligned_example = next_sleep_aligned (λ _. none) "@hourly" hour 1_234 refl refl
