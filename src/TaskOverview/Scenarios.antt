-- ===== src/TaskOverview/Scenarios.antt =====
-- A small task list.
use mathlib.Core.List.{Memᴰ}
use mathlib.Core.List.Permᴰ
use mentis_eterna.Prelude.{
  ℕ, ◌+◌, ◌-◌, ◌*◌, ◌/◌, min, max, String, Bool, true, false, Option, none, some, List, [], ◌∷◌,
  keep_if, length, map, ltb, ◌≡◌, refl, ◌==◌, ==→ne, string_key, if◌then◌else◌,
}
use mentis_eterna.Prelude.Integers.{ℤ, pos, negsuc, is_same}
use mentis_eterna.TaskOverview.Types.{TaskScoreBreakdown, TaskSummary}
use mentis_eterna.TaskOverview.TimeText.{
  parse_time_to_minutes, trim_front, trim_end, trim_space, add_digits, parse_leading_int, split_at,
}
use mentis_eterna.TaskOverview.Scoring.{
  Float64, compute_due_in_days, normalize_overview_config, is_forced, target_count,
  select_daily_tasks, score_task, is_open, score_open_tasks, default_overview_config,
}
use mentis_eterna.TaskOverview.Stats.{digits, format_minutes, compute_stats}
use mentis_eterna.TaskOverview.Daily.{DailyRow, store_daily_tasks, load_daily_tasks, group_rows}
use mentis_eterna.TaskOverview.History.{
  IsGrouped, group_rows-IsGrouped, keyed_rows, keyed_tasks, start_times, times,
}
use mentis_eterna.TaskOverview.Selection.{
  Permutes, select_daily_tasks-length, selected_if_urgent, selected_only_open,
}
use mentis_eterna.TaskOverview.Generations.{
  found, ids_of, load-store_daily_tasks, load-store_nothing,
}

long_day : parse_time_to_minutes (b'1' ∷ b'd' ∷ b' ' ∷ b'2' ∷ b'h' ∷ b'3' ∷ b'0' ∷ b'm' ∷ []) ≡ 630
unfolding parse_time_to_minutes trim_space trim_front trim_end split_at parse_leading_int add_digits
long_day = refl

ten_hours : format_minutes 630 ≡ b'1' ∷ b'0' ∷ b'h' ∷ b' ' ∷ b'3' ∷ b'0' ∷ b'm' ∷ []
unfolding format_minutes digits
ten_hours = refl

-- Coarse numbers: whole ones that are not negative.
abbrev magnitude : ℤ → ℕ
magnitude (pos n) = n
magnitude (negsuc n) = 0

abbrev coarse : Float64 ℕ
coarse = record {
  ratio = λ p q. magnitude p / q;
  plus = λ a b. a + b;
  minus = λ a b. a - b;
  times = λ a b. a * b;
  divide = λ a b. a / b;
  abs = λ a. a;
  less = λ a b. ltb a b;
}

abbrev no_score : TaskScoreBreakdown ℕ
no_score = record {
  due_urgency = 0;
  priority = 0;
  difficulty = 0;
  fun = 0;
  time_estimation = 0;
  fun_time = 0;
  estimated_hours = 0;
  total = 0;
}

abbrev task_named : ℤ → String → String → TaskSummary ℕ
task_named id status due = record {
  note_id = id;
  title = "task";
  status = status;
  priority = pos 2;
  difficulty = pos 1;
  fun = pos 1;
  due_date = due;
  time_estimation = b'2' ∷ b'h' ∷ [];
  time_used = [];
  recurring = "none";
  completed_at = "";
  created_at = "";
  updated_at = "";
  body = "";
  pending_does_not_force_daily_inclusion = false;
  subtasks_done = 0;
  subtasks_total = 0;
  due_in_days = none;
  generation_score = 0;
  generation_forced_reasons = [];
  generation_score_breakdown = no_score;
}

abbrev begun : TaskSummary ℕ
begun = task_named (pos 2) "in_progress" ""

abbrev week_plan : List (TaskSummary ℕ)
week_plan =
    task_named (pos 1) "done" ""
    ∷ begun
    ∷ task_named (pos 3) "todo" "2026-05-21"
    ∷ task_named (pos 4) "todo" ""
    ∷ []

abbrev parse_listed : String → Option ℕ
parse_listed s = if s == "2026-05-21" then some 101 else none

-- A sort that finds the tasks in order.
abbrev as_they_come :
    (TaskSummary ℕ → TaskSummary ℕ → Bool) → List (TaskSummary ℕ) → List (TaskSummary ℕ)
as_they_come less ts = ts

as_they_come-Permutes : Permutes as_they_come
as_they_come-Permutes less ts = Permᴰ.refl ts

select_daily_tasks-length_example :
    length (select_daily_tasks week_plan (default_overview_config coarse) (pos 0))
    ≡ min 4 (
        max
          (target_count (default_overview_config coarse) (pos 0))
          (length (keep_if is_forced week_plan)))
select_daily_tasks-length_example =
    select_daily_tasks-length week_plan (default_overview_config coarse) (pos 0)

selected_if_urgent_example :
    Memᴰ
      (score_task coarse parse_listed
        (normalize_overview_config (default_overview_config coarse))
        100
        begun)
      (select_daily_tasks
        (score_open_tasks coarse as_they_come parse_listed week_plan
          (default_overview_config coarse)
          100)
        (default_overview_config coarse)
        (pos 1))
unfolding compute_due_in_days default_overview_config normalize_overview_config
selected_if_urgent_example =
    selected_if_urgent coarse as_they_come parse_listed week_plan (default_overview_config coarse)
      100 (pos 1) begun as_they_come-Permutes (Memᴰ.tail (Memᴰ.head refl)) refl refl

begun_picked :
    Memᴰ
      (score_task coarse parse_listed
        (normalize_overview_config (default_overview_config coarse))
        100
        begun)
      (select_daily_tasks
        (score_open_tasks coarse as_they_come parse_listed week_plan
          (default_overview_config coarse)
          100)
        (default_overview_config coarse)
        (pos 1))
unfolding compute_due_in_days default_overview_config normalize_overview_config
begun_picked =
    selected_if_urgent coarse as_they_come parse_listed week_plan (default_overview_config coarse)
      100 (pos 1) begun as_they_come-Permutes (Memᴰ.tail (Memᴰ.head refl)) refl refl

selected_only_open_example :
    (t : TaskSummary ℕ) × Memᴰ t week_plan
    × (is_open t ≡ true)
    × (score_task coarse parse_listed
          (normalize_overview_config (default_overview_config coarse))
          100
          t
        ≡ score_task coarse parse_listed
            (normalize_overview_config (default_overview_config coarse))
            100
            begun)
selected_only_open_example =
    selected_only_open coarse as_they_come parse_listed week_plan (default_overview_config coarse)
      100 (pos 1)
      (score_task coarse parse_listed (normalize_overview_config (default_overview_config coarse))
        100 begun)
      as_they_come-Permutes begun_picked

week_total : (compute_stats "2026-05-20" week_plan).total ≡ 4
unfolding compute_stats
week_total = refl

abbrev yesterday : List DailyRow
yesterday =
    record {
      overview_note_id = pos 9;
      generation_id = "2026-05-19T00:00:00Z#1";
      task_note_id = pos 1;
      assigned_at = "2026-05-19T00:00:00Z";
      position = 0;
    }
    ∷ []

abbrev find_id : ℤ → Option ℤ
find_id id = if is_same id (pos 7) then none else some id

load-store_daily_tasks_example :
    load_daily_tasks find_id
      (pos 9)
      (store_daily_tasks false
        (pos 9)
        "2026-05-20T00:00:00Z#2"
        "2026-05-20T00:00:00Z"
        (pos 3 ∷ pos 7 ∷ [])
        yesterday).1
    ≡ pos 3 ∷ []
unfolding found
load-store_daily_tasks_example =
    load-store_daily_tasks find_id (pos 9) (pos 3) "2026-05-20T00:00:00Z#2" "2026-05-20T00:00:00Z"
      (pos 7 ∷ []) yesterday (==→ne "2026-05-20T00:00:00Z#2" "" refl)
      (
        λ own. (
          ==→ne "2026-05-19T00:00:00Z" "2026-05-20T00:00:00Z" refl,
          refl,
          ==→ne "2026-05-19T00:00:00Z#1" "2026-05-20T00:00:00Z#2" refl,
        ),
        tt,
      )

-- All work of the day before is done, and yet it is what the dashboard shows.
load-store_nothing_example :
    let done_tasks = task_named (pos 1) "done" "" ∷ [] in
    let picked =
      select_daily_tasks
        (score_open_tasks coarse as_they_come parse_listed done_tasks
          (default_overview_config coarse)
          100)
        (default_overview_config coarse)
        (pos 0) in
    (picked ≡ [])
    × (load_daily_tasks find_id
          (pos 9)
          (store_daily_tasks false
            (pos 9)
            "2026-05-20T00:00:00Z#2"
            "2026-05-20T00:00:00Z"
            (ids_of picked)
            yesterday).1
        ≡ load_daily_tasks find_id (pos 9) yesterday)
load-store_nothing_example =
    load-store_nothing coarse as_they_come parse_listed find_id (task_named (pos 1) "done" "" ∷ [])
      (default_overview_config coarse) 100 (pos 0) (pos 9) "2026-05-20T00:00:00Z#2"
      "2026-05-20T00:00:00Z" yesterday as_they_come-Permutes (refl, tt)

abbrev row_at : String → ℕ → DailyRow
row_at time n = record {
  overview_note_id = pos 9;
  generation_id = "";
  task_note_id = pos n;
  assigned_at = time;
  position = n;
}

abbrev two_days : List (DailyRow × ℕ)
two_days = (row_at "b" 0, 10) ∷ (row_at "b" 1, 11) ∷ (row_at "a" 0, 12) ∷ []

two_entries : map (λ (k, e). e.tasks) (group_rows two_days) ≡ (10 ∷ 11 ∷ []) ∷ (12 ∷ []) ∷ []
unfolding group_rows
two_entries = refl

group_rows-IsGrouped_example :
    (keyed_tasks (group_rows two_days) ≡ keyed_rows two_days)
    × IsGrouped (group_rows two_days)
    × (times (group_rows two_days) ≡ start_times two_days)
group_rows-IsGrouped_example = group_rows-IsGrouped two_days
