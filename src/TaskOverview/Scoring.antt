-- ===== src/TaskOverview/Scoring.antt =====
-- pkg/notetype/taskoverview/scoring.go.
use mentis_eterna.Prelude.{
  ℕ, ◌-◌, String, Bool, true, false, not, ◌&&◌, Option, none, some, List, [], ◌∷◌, ◌++◌, map,
  keep_if, length, take, max, ltb, nat_beq, ◌==◌, string_key, if◌then◌else◌,
}
use mentis_eterna.Prelude.Integers.{ℤ, pos, negsuc, is_le, is_same, minus_nat, minus_int, successor}
use mentis_eterna.TaskOverview.Types.{TaskOverviewConfig, TaskSummary}
use mentis_eterna.TaskOverview.TimeText.{parse_time_to_minutes}

-- The float64 operations of the scores: `ratio p q` is the number nearest to p / q.
pub record Float64 (F : Type 0) : Type 0 where
  pub ratio : ℤ → ℕ → F
  pub plus : F → F → F
  pub minus : F → F → F
  pub times : F → F → F
  pub divide : F → F → F
  pub abs : F → F
  pub less : F → F → Bool

-- The length of `append`ed reasons is tested often.
abbrev pub has_reasons : List String → Bool
has_reasons [] = false
has_reasons (r ∷ rs) = true

-- The difference of two midnights, in days. A `time.Duration` holds no more than 106751 days.
abbrev pub clamp_days : ℤ → ℤ
clamp_days (pos n) = if ltb 106751 n then pos 106751 else pos n
clamp_days (negsuc n) = if ltb 106750 n then negsuc 106750 else negsuc n

-- `parse_date` is `time.Parse("2006-01-02", …)`, which gives a number of days here, and `today` is
-- the day of `startOfToday`.
unfoldable pub compute_due_in_days : (String → Option ℕ) → String → ℕ → Option ℤ
compute_due_in_days parse_date due_date today =
    if due_date == "" then none else due_of (parse_date due_date)
  where
    due_of : Option ℕ → Option ℤ
    due_of none = none
    due_of (some due) = some (clamp_days (minus_nat due today))

abbrev pub is_due_soon : ℤ → Option ℤ → Bool
is_due_soon urgent none = false
is_due_soon urgent (some days) = is_le days urgent

abbrev pub sortable_due_days : Option ℤ → ℤ
sortable_due_days none = pos 2147483647
sortable_due_days (some days) = days

abbrev pub has_reason : String → List String → Bool
has_reason name [] = false
has_reason name (r ∷ rs) = if r == name then true else has_reason name rs

abbrev pub default_daily_task_count : ℤ
default_daily_task_count = pos 3

abbrev pub default_urgent_due_days : ℤ
default_urgent_due_days = pos 3

-- A count that is at least 1.
abbrev pub at_least_one : ℤ → ℕ
at_least_one (pos n) = if ltb n 1 then 1 else n
at_least_one (negsuc n) = 1

module _ {F : Type 0} where
  unfoldable pub forced_generation_reasons :
      TaskSummary F → TaskOverviewConfig F → Option ℤ → List String
  forced_generation_reasons task cfg due =
      (if is_due_soon cfg.urgent_due_days due then "due_soon" ∷ [] else [])
      ++ (if task.status == "in_progress" && not task.pending_does_not_force_daily_inclusion
          then "pending" ∷ []
          else [])

  unfoldable pub generation_force_rank : TaskSummary F → ℕ
  generation_force_rank task =
      if has_reason "due_soon" task.generation_forced_reasons
      then 2
      else if has_reason "pending" task.generation_forced_reasons
      then 1
      else 0

  unfoldable pub normalize_overview_config : TaskOverviewConfig F → TaskOverviewConfig F
  normalize_overview_config cfg = record cfg {
    daily_task_count =
        if is_le cfg.daily_task_count (pos 0)
        then default_daily_task_count
        else cfg.daily_task_count;
    urgent_due_days =
        if is_le cfg.urgent_due_days (negsuc 0)
        then default_urgent_due_days
        else cfg.urgent_due_days;
  }

  abbrev pub is_open : TaskSummary F → Bool
  is_open t = not (t.status == "done")

  abbrev pub is_forced : TaskSummary F → Bool
  is_forced task = has_reasons task.generation_forced_reasons

  unfoldable pub target_count : TaskOverviewConfig F → ℤ → ℕ
  unfolding normalize_overview_config
  target_count cfg count_override = at_least_one (
      if is_le count_override (pos 0)
      then (normalize_overview_config cfg).daily_task_count
      else count_override)

  unfoldable pub select_daily_tasks :
      List (TaskSummary F) → TaskOverviewConfig F → ℤ → List (TaskSummary F)
  unfolding target_count
  select_daily_tasks scored cfg count_override =
      let forced = keep_if is_forced scored in
      let optional = keep_if (λ t. not (is_forced t)) scored in
      let result_size = max (target_count cfg count_override) (length forced) in
      forced ++ take (result_size - length forced) optional

  -- `scoreByID`, in which the last task of an id counts.
  unfoldable pub score_by_id : ℤ → List (TaskSummary F) → Option (TaskSummary F)
  score_by_id id [] = none
  score_by_id id (t ∷ ts) =
      or_first (score_by_id id ts) (if is_same t.note_id id then some t else none)
    where
      or_first : Option (TaskSummary F) → Option (TaskSummary F) → Option (TaskSummary F)
      or_first none other = other
      or_first (some t) other = some t

  abbrev pub annotate : Option (TaskSummary F) → TaskSummary F → TaskSummary F
  annotate none task = task
  annotate (some scored) task = record task {
    due_in_days = scored.due_in_days;
    generation_score = scored.generation_score;
    generation_forced_reasons = scored.generation_forced_reasons;
    generation_score_breakdown = scored.generation_score_breakdown;
  }

  unfoldable pub annotate_tasks_with_scores :
      List (TaskSummary F) → List (TaskSummary F) → List (TaskSummary F)
  annotate_tasks_with_scores tasks scored =
      map (λ task. annotate (score_by_id task.note_id scored) task) tasks

module _ {F : Type 0} (f : Float64 F) where
  unfoldable pub default_overview_config : TaskOverviewConfig F
  default_overview_config = record {
    daily_task_count = default_daily_task_count;
    urgent_due_days = default_urgent_due_days;
    priority_weight = f.ratio (pos 4) 1;
    due_urgency_weight = f.ratio (pos 6) 1;
    difficulty_weight = f.ratio (negsuc 0) 1;
    fun_weight = f.ratio (pos 3) 4;
    time_estimation_weight = f.ratio (negsuc 0) 2;
    fun_time_weight = f.ratio (pos 1) 10;
  }

  unfoldable pub compute_due_urgency_units : TaskOverviewConfig F → Option ℤ → F
  compute_due_urgency_units cfg none = f.ratio (pos 0) 1
  compute_due_urgency_units cfg (some days) =
      if is_le days cfg.urgent_due_days
      then f.ratio (minus_int (successor cfg.urgent_due_days) days) 1
      else f.ratio (pos 0) 1

  unfoldable pub nearly_equal : F → F → Bool
  nearly_equal a b = f.less (f.abs (f.minus a b)) (f.ratio (pos 1) 1_000_000)

  unfoldable pub score_task :
      (String → Option ℕ) → TaskOverviewConfig F → ℕ → TaskSummary F → TaskSummary F
  unfolding compute_due_in_days forced_generation_reasons compute_due_urgency_units
      parse_time_to_minutes
  score_task parse_date cfg today t =
      let hours =
        f.divide (f.ratio (pos (parse_time_to_minutes t.time_estimation)) 1) (f.ratio (pos 60) 1) in
      let due = compute_due_in_days parse_date t.due_date today in
      let urgency = f.times (compute_due_urgency_units cfg due) cfg.due_urgency_weight in
      let priority = f.times (f.ratio t.priority 1) cfg.priority_weight in
      let difficulty = f.times (f.ratio t.difficulty 1) cfg.difficulty_weight in
      let fun = f.times (f.ratio t.fun 1) cfg.fun_weight in
      let time = f.times hours cfg.time_estimation_weight in
      let fun_time = f.times (f.times hours (f.ratio t.fun 1)) cfg.fun_time_weight in
      let total =
        f.plus (f.plus (f.plus (f.plus (f.plus urgency priority) difficulty) fun) time) fun_time in
      record t {
        due_in_days = due;
        generation_forced_reasons = forced_generation_reasons t cfg due;
        generation_score_breakdown = record {
          due_urgency = urgency;
          priority = priority;
          difficulty = difficulty;
          fun = fun;
          time_estimation = time;
          fun_time = fun_time;
          estimated_hours = hours;
          total = total;
        };
        generation_score = total;
      }

  -- The comparison of the sort: by rank, score, due date, priority and id.
  unfoldable pub goes_before : TaskSummary F → TaskSummary F → Bool
  unfolding generation_force_rank nearly_equal
  goes_before left right =
      if not (nat_beq (generation_force_rank left) (generation_force_rank right))
      then ltb (generation_force_rank right) (generation_force_rank left)
      else if not (nearly_equal left.generation_score right.generation_score)
      then f.less right.generation_score left.generation_score
      else if not
          (is_same (sortable_due_days left.due_in_days) (sortable_due_days right.due_in_days))
      then not (is_le (sortable_due_days right.due_in_days) (sortable_due_days left.due_in_days))
      else if not (is_same left.priority right.priority)
      then not (is_le left.priority right.priority)
      else not (is_le right.note_id left.note_id)

  -- `stable_sort` is `sort.SliceStable`, which is given the comparison.
  unfoldable pub score_open_tasks :
      ((TaskSummary F → TaskSummary F → Bool) → List (TaskSummary F) → List (TaskSummary F))
      → (String → Option ℕ)
      → List (TaskSummary F)
      → TaskOverviewConfig F
      → ℕ
      → List (TaskSummary F)
  score_open_tasks stable_sort parse_date tasks cfg today =
      stable_sort goes_before
        (map (score_task parse_date (normalize_overview_config cfg) today) (keep_if is_open tasks))
