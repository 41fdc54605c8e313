-- ===== src/TaskOverview/Stats.antt =====
-- `computeStats` and `sumTimeUsed` of pkg/notetype/taskoverview/tasks.go.
use mentis_eterna.Prelude.{
  ℕ, zero, suc, ◌+◌, ◌/◌, ◌%◌, String, false, not, ◌&&◌, List, [], ◌∷◌, ◌++◌, length, ltb, nat_beq,
  Bool-cases, inl, inr, ◌⊎◌, ◌≡◌, ◌≤◌, refl, ==→eq, arith, ◌==◌, string_key, if◌then◌else◌,
}
use mentis_eterna.TaskOverview.Types.{TaskSummary, TaskStats}
use mentis_eterna.TaskOverview.TimeText.{parse_time_to_minutes}
use mentis_eterna.TaskOverview.Daily.{is_before}

-- The digits of a number, for at most `fuel` digits.
unfoldable pub digits : ℕ → ℕ → List ℕ
digits zero n = []
digits (suc fuel) n =
    let front = digits fuel (n / 10) in
    if ltb n 10 then (b'0' + n) ∷ [] else front ++ (b'0' + n % 10) ∷ []

-- `%d`: a number has no more digits than its successor counts.
abbrev pub print_nat : ℕ → List ℕ
print_nat n = digits (suc n) n

-- The text of a sum of minutes.
unfoldable pub format_minutes : ℕ → List ℕ
unfolding digits
format_minutes total =
    let hours = total / 60 in
    let mins = total % 60 in
    if nat_beq total 0
    then b'0' ∷ b'h' ∷ []
    else if ltb 0 hours && ltb 0 mins
    then print_nat hours ++ b'h' ∷ b' ' ∷ print_nat mins ++ b'm' ∷ []
    else if ltb 0 hours
    then print_nat hours ++ b'h' ∷ []
    else print_nat mins ++ b'm' ∷ []

-- A status is one of the three at most.
one_status :
    (status : String)
    → ((status == "todo") ≡ false)
      ⊎ (((status == "in_progress") ≡ false) × ((status == "done") ≡ false))
one_status status = elim (Bool-cases (status == "todo")) [
  | inl e ↦ inr (rw (==→eq status "todo" e) (refl, refl))
  | inr e ↦ inl e
]

one_of_two : (status : String) → ((status == "in_progress") ≡ false) ⊎ ((status == "done") ≡ false)
one_of_two status = elim (Bool-cases (status == "in_progress")) [
  | inl e ↦ inr (rw (==→eq status "in_progress" e) refl)
  | inr e ↦ inl e
]

module _ {F : Type 0} where
  unfoldable pub sum_minutes : List (TaskSummary F) → ℕ
  unfolding parse_time_to_minutes
  sum_minutes [] = 0
  sum_minutes (t ∷ tasks) =
      (if nat_beq (length t.time_used) 0 then 0 else parse_time_to_minutes t.time_used)
      + sum_minutes tasks

  unfoldable pub sum_time_used : List (TaskSummary F) → List ℕ
  unfolding sum_minutes format_minutes
  sum_time_used tasks = format_minutes (sum_minutes tasks)

  -- The body of the loop of `computeStats`, on the counts.
  unfoldable pub count_task : String → TaskSummary F → TaskStats → TaskStats
  count_task now t s = record s {
    todo = if t.status == "todo" then suc s.todo else s.todo;
    in_progress = if t.status == "in_progress" then suc s.in_progress else s.in_progress;
    done = if t.status == "done" then suc s.done else s.done;
    overdue =
        if not (t.due_date == "") && (not (t.status == "done") && is_before t.due_date now)
        then suc s.overdue
        else s.overdue;
  }

  unfoldable pub count_tasks : String → List (TaskSummary F) → TaskStats → TaskStats
  unfolding count_task
  count_tasks now [] s = s
  count_tasks now (t ∷ tasks) s = count_tasks now tasks (count_task now t s)

  unfoldable pub compute_stats : String → List (TaskSummary F) → TaskStats
  unfolding count_tasks
  compute_stats now tasks =
      count_tasks now tasks
        (record { total = length tasks; todo = 0; in_progress = 0; done = 0; overdue = 0 })

  count_tasks-bounds :
      (now : String) (tasks : List (TaskSummary F)) (s : TaskStats)
      → let r = count_tasks now tasks s in
        (r.total ≡ s.total)
        × (r.todo + r.in_progress + r.done ≤ s.todo + s.in_progress + s.done + length tasks)
        × (r.overdue + r.done ≤ s.overdue + s.done + length tasks)
  unfolding count_tasks count_task
  count_tasks-bounds now [] s = (refl, omega arith, omega arith)
  count_tasks-bounds now (t ∷ tasks) s =
      let (e, sum, late) = count_tasks-bounds now tasks (count_task now t s) in
      (e, ground (arith, sum, one_status t.status, one_of_two t.status), ground (arith, late))

  -- The tasks counted under the three states are together no more than there are, and so are those
  -- counted as overdue or as done.
  compute_stats-bounds :
      (now : String) (tasks : List (TaskSummary F))
      → let s = compute_stats now tasks in
        (s.total ≡ length tasks)
        × (s.todo + s.in_progress + s.done ≤ s.total)
        × (s.overdue + s.done ≤ s.total)
  unfolding compute_stats
  compute_stats-bounds now tasks =
      let start : TaskStats = record {
        total = length tasks;
        todo = 0;
        in_progress = 0;
        done = 0;
        overdue = 0;
      } in
      let (e, sum, late) = count_tasks-bounds now tasks start in
      (e, omega (arith, sum, e), omega (arith, late, e))
