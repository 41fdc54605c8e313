-- ===== src/Jobs/Manager.antt =====
-- The operations of `Manager` in internal/jobs/jobs.go that a client or a worker calls.
-- A statement fails only where a constraint refuses it. Log lines are not modelled.
-- `between` is what other goroutines do to the table between two statements of one operation; it may
-- insert rows too.
use mentis_eterna.Prelude.{
  ℕ, suc, ◌+◌, ◌-◌, ◌*◌, ◌/◌, ◌%◌, String, Bool, true, false, not, ◌&&◌, ◌||◌, Option, none, some,
  List, [], ◌∷◌, ◌++◌, ltb, nat_beq, length, ◌==◌, nat_key, string_key, if◌then◌else◌,
}
use mentis_eterna.Prelude.Maps.{Map, or_zero, lookup, insert}
use mentis_eterna.Jobs.Table.{
  Status, planned, errored, cancelled, is_planned, is_running, Run, Table, insert_row, find_active,
  find_run, update_where, any_row, delete_where, is_planned_id, cancel, fail, revive,
}

-- A row of `job_definitions`.
pub record Definition : Type 0 where
  pub id : ℕ
  pub plugin_id : String
  pub name : String
  pub schedule : String
  pub enabled : Bool

pub record JobDefMeta : Type 0 where
  pub id : ℕ
  pub plugin_id : String
  pub name : String
  pub schedule : String

pub data EventType : Type 0 where
  enqueued retried cancelled_event running_event errored_event done_event : EventType

pub record RunEvent : Type 0 where
  pub type : EventType
  pub run_id : ℕ
  pub plugin_id : String
  pub job_name : String
  pub status : Status
  pub result : Option String
  pub error : Option String

-- The database, the two maps in memory (of `tasks` only the keys matter here), and the events that
-- the observer was sent, oldest first.
pub record Manager : Type 0 where
  pub table : Table
  pub definitions : List Definition
  pub last_definition : ℕ
  pub tasks : List ℕ
  pub defs : Map ℕ JobDefMeta
  pub events : List RunEvent

pub data JobError : Type 0 where
  definition_not_found : JobError
  insert_refused : JobError
  run_not_found : JobError
  not_retryable : Status → JobError
  not_planned : JobError

pub data Result {ℓ} (A : Type ℓ) : Type ℓ where
  ok : A → Result A
  err : JobError → Result A

-- SELECT id FROM job_definitions WHERE plugin_id = ? AND name = ?.
unfoldable pub find_definition : String → String → List Definition → Option ℕ
find_definition plugin name [] = none
find_definition plugin name (d ∷ ds) =
    if d.plugin_id == plugin && d.name == name then some d.id else find_definition plugin name ds

-- INSERT … ON CONFLICT(plugin_id, name) DO UPDATE SET schedule = excluded.schedule. The column
-- `enabled` has the default 1.
unfoldable pub upsert_definition : ℕ → String → String → String → List Definition → List Definition
upsert_definition id plugin name schedule [] =
    record { id = id; plugin_id = plugin; name = name; schedule = schedule; enabled = true } ∷ []
upsert_definition id plugin name schedule (d ∷ ds) =
    if d.plugin_id == plugin && d.name == name
    then record d { schedule = schedule } ∷ ds
    else d ∷ upsert_definition id plugin name schedule ds

unfoldable pub definition_by_id : ℕ → List Definition → Option Definition
definition_by_id id [] = none
definition_by_id id (d ∷ ds) = if d.id == id then some d else definition_by_id id ds

unfoldable pub has_task : ℕ → List ℕ → Bool
has_task id [] = false
has_task id (j ∷ js) = j == id || has_task id js

abbrev pub blank_meta : ℕ → JobDefMeta
blank_meta id = record { id = id; plugin_id = ""; name = ""; schedule = "" }

abbrev pub meta_of_row : ℕ → Option Definition → JobDefMeta
meta_of_row id none = blank_meta id
meta_of_row id (some d) = record {
  id = id;
  plugin_id = d.plugin_id;
  name = d.name;
  schedule = d.schedule;
}

abbrev pub meta_or_row : ℕ → Option JobDefMeta → Option Definition → JobDefMeta
meta_or_row id (some m) row = m
meta_or_row id none row = meta_of_row id row

-- The cached meta data, else the row of the definition.
unfoldable pub lookup_definition : ℕ → Manager → JobDefMeta
lookup_definition id m = meta_or_row id (lookup id m.defs) (definition_by_id id m.definitions)

unfoldable pub event_of :
    EventType → ℕ → ℕ → Status → Option String → Option String → Manager → RunEvent
unfolding lookup_definition
event_of type run job status result error m =
    let meta = lookup_definition job m in
    record {
      type = type;
      run_id = run;
      plugin_id = meta.plugin_id;
      job_name = meta.name;
      status = status;
      result = result;
      error = error;
    }

-- The call of the observer. It may panic, which Worker tells of the events that a worker sends; in
-- a request the panic ends the request, whose statements were all made before.
unfoldable pub emit_event :
    EventType → ℕ → ℕ → Status → Option String → Option String → Manager → Manager
unfolding event_of
emit_event type run job status result error m = record m {
  events = m.events ++ event_of type run job status result error m ∷ [];
}

abbrev pub set_rows : List Run → Manager → Manager
set_rows rows m = record m { table = record m.table { rows = rows } }

-- The second half of `insertPlannedRun`, after the index has refused.
abbrev pub existing_run : Option ℕ → Result (ℕ × Bool)
existing_run (some id) = ok (id, true)
existing_run none = err insert_refused

-- The run's id and whether it stood there already; `none` of `insert_row` is the refusal.
unfoldable pub insert_planned_run :
    (Table → Table) → ℕ → Option String → ℕ → ℕ → Manager → Result (ℕ × Bool) × Manager
insert_planned_run between job payload retries now m =
    elim (insert_row job payload retries now m.table) [
      | some (id, t) ↦ (ok (id, false), record m { table = t })
      | none ↦
          let m' = record m { table = between m.table } in
          (existing_run (find_active job payload m'.table.rows), m')
    ]

-- What `Enqueue` and `RetryRun` do with the outcome of the insertion.
abbrev pub announce : EventType → ℕ → Result (ℕ × Bool) × Manager → Result ℕ × Manager
announce type job (err e, m) = (err e, m)
announce type job (ok (id, true), m) = (ok id, m)
announce type job (ok (id, false), m) = (ok id, emit_event type id job planned none none m)

abbrev pub enqueue_for :
    (Table → Table) → Option ℕ → Option String → ℕ → Manager → Result ℕ × Manager
enqueue_for between none payload now m = (err definition_not_found, m)
enqueue_for between (some job) payload now m =
    announce enqueued job (insert_planned_run between job payload 0 now m)

unfoldable pub enqueue :
    (Table → Table) → String → String → Option String → ℕ → Manager → Result ℕ × Manager
enqueue between plugin name payload now m =
    enqueue_for between (find_definition plugin name m.definitions) payload now m

abbrev pub announce_tick : ℕ → Option (ℕ × Table) → Manager → Manager
announce_tick job none m = m
announce_tick job (some (id, t)) m =
    emit_event enqueued id job planned none none (record m { table = t })

abbrev pub tick_of : ℕ → Option Definition → ℕ → Manager → Manager
tick_of job none now m = m
tick_of job (some d) now m =
    if d.enabled then announce_tick job (insert_row job none 0 now m.table) m else m

-- A tick of `runScheduler`: the definition may be gone, disabled, or refused by the index.
unfoldable pub schedule_run : ℕ → ℕ → Manager → Manager
unfolding definition_by_id
schedule_run job now m = tick_of job (definition_by_id job m.definitions) now m

abbrev pub may_retry : Status → Bool
may_retry errored = true
may_retry cancelled = true
may_retry _ = false

abbrev pub retry_for : (Table → Table) → Option Run → ℕ → Manager → Result ℕ × Manager
retry_for between none now m = (err run_not_found, m)
retry_for between (some r) now m =
    if may_retry r.status
    then announce retried r.job_id
        (insert_planned_run between r.job_id r.payload (r.retry_count + 1) now m)
    else (err (not_retryable r.status), m)

unfoldable pub retry_run : (Table → Table) → ℕ → ℕ → Manager → Result ℕ × Manager
retry_run between id now m = retry_for between (find_run id m.table.rows) now m

abbrev pub job_of : Option Run → ℕ
job_of none = 0
job_of (some r) = r.job_id

unfoldable pub cancel_run : ℕ → ℕ → Manager → Result (Unit {0}) × Manager
cancel_run id now m =
    let m' = set_rows (update_where (is_planned_id id) (cancel now) m.table.rows) m in
    if any_row (is_planned_id id) m.table.rows
    then (
      ok tt,
      emit_event cancelled_event id (job_of (find_run id m'.table.rows)) cancelled none none m',
    )
    else (err not_planned, m')

abbrev pub no_task : String
no_task = "No task registered for this job definition"

-- A planned run of a definition that has no task.
abbrev pub is_orphan : List ℕ → Run → Bool
is_orphan tasks r = is_planned r.status && not (has_task r.job_id tasks)

-- What `zombieRecovery` does to the rows. The runs of definitions with no task are marked, unless no
-- task is registered at all.
unfoldable pub recover_rows : ℕ → List ℕ → List Run → List Run
recover_rows now tasks rows =
    let revived = update_where (λ r. is_running r.status) revive rows in
    if ltb 0 (length tasks)
    then update_where (is_orphan tasks) (fail now no_task) revived
    else revived

unfoldable pub zombie_recovery : ℕ → Manager → Manager
zombie_recovery now m = set_rows (recover_rows now m.tasks m.table.rows) m

abbrev pub day_ms : ℕ
day_ms = 24 * 60 * 60 * 1000

-- The texts that SQLite makes of a time: `%Y-%m-%d` of a day, and of the milliseconds behind it
-- `%H:%M:%fZ` and `%H:%M:%S`.
pub record SqlTime : Type 0 where
  pub date : ℕ → List ℕ
  pub fraction : ℕ → List ℕ
  pub seconds : ℕ → List ℕ

-- The default of the column: `strftime('%Y-%m-%dT%H:%M:%fZ', 'now')`.
abbrev pub created_text : SqlTime → ℕ → List ℕ
created_text clock t = clock.date (t / day_ms) ++ b'T' ∷ clock.fraction (t % day_ms)

-- `datetime(…)`, whose text has a space behind the date.
abbrev pub datetime_text : SqlTime → ℕ → List ℕ
datetime_text clock t = clock.date (t / day_ms) ++ b' ' ∷ clock.seconds (t % day_ms)

-- The order of texts by their bytes.
unfoldable pub is_less : List ℕ → List ℕ → Bool
is_less [] [] = false
is_less [] (c ∷ t) = true
is_less (b ∷ s) [] = false
is_less (b ∷ s) (c ∷ t) = let rest = is_less s t in if nat_beq b c then rest else ltb b c

-- `created_at < datetime('now', '-30 days')`, which compares two texts.
unfoldable pub is_expired : SqlTime → ℕ → Run → Bool
unfolding is_less
is_expired clock now r =
    is_less (created_text clock r.created_at) (datetime_text clock (now - 30 * day_ms))

unfoldable pub janitor_task : SqlTime → ℕ → Manager → Manager
unfolding is_expired
janitor_task clock now m = set_rows (delete_where (is_expired clock now) m.table.rows) m

-- One job of `upsertDefs`: the row, then its id read back, then the two maps.
unfoldable pub upsert_def : String → String → String → Manager → Manager
upsert_def plugin name schedule m =
    let id = suc m.last_definition in
    let rows = upsert_definition id plugin name schedule m.definitions in
    let key = or_zero 0 (find_definition plugin name rows) in
    record m {
      definitions = rows;
      last_definition = if key == id then id else m.last_definition;
      tasks = if has_task key m.tasks then m.tasks else key ∷ m.tasks;
      defs =
          insert key (record { id = key; plugin_id = plugin; name = name; schedule = schedule })
            m.defs;
    }

-- The jobs are given by name and schedule.
unfoldable pub upsert_defs : String → List (String × String) → Manager → Manager
upsert_defs plugin [] m = m
upsert_defs plugin ((name, schedule) ∷ jobs) m =
    upsert_defs plugin jobs (upsert_def plugin name schedule m)

unfoldable pub register_ad_hoc : String → List (String × String) → Manager → Manager
register_ad_hoc plugin [] m = m
register_ad_hoc plugin ((name, schedule) ∷ jobs) m =
    register_ad_hoc plugin jobs (upsert_def plugin name "" m)
