-- ===== src/TaskOverview/Daily.antt =====
-- pkg/notetype/taskoverview/daily.go: the table `ct_taskoverview_daily`, in which the rows of one
-- generation are one daily selection of an overview note.
use Prim.Native.String.{compare}
use Prim.Native.Nat.{Ordering}
use mentis_eterna.Prelude.{
  ℕ, suc, String, Bool, true, false, not, ◌&&◌, Option, none, some, List, [], ◌∷◌, ◌++◌, keep_if,
  ltb, nat_beq, ◌==◌, string_key, if◌then◌else◌,
}
use mentis_eterna.Prelude.Integers.{ℤ, is_le, is_same}
use mentis_eterna.TaskOverview.Types.{DailyHistoryEntry}

pub record DailyRow : Type 0 where
  pub overview_note_id : ℤ
  pub generation_id : String
  pub task_note_id : ℤ
  pub assigned_at : String
  pub position : ℕ

-- The order of texts in the database.
abbrev pub is_before : String → String → Bool
is_before s t = elim (compare s t) [ Ordering.lt ↦ true | _ ↦ false ]

-- ORDER BY assigned_at, generation_id, position, task_note_id.
unfoldable pub row_before : DailyRow → DailyRow → Bool
row_before r q =
    if not (r.assigned_at == q.assigned_at)
    then is_before r.assigned_at q.assigned_at
    else if not (r.generation_id == q.generation_id)
    then is_before r.generation_id q.generation_id
    else if not (nat_beq r.position q.position)
    then ltb r.position q.position
    else not (is_le q.task_note_id r.task_note_id)

abbrev pub later_row : DailyRow → Option DailyRow → DailyRow
later_row r none = r
later_row r (some q) = if row_before r q then q else r

-- The last row in this order.
unfoldable pub last_row : List DailyRow → Option DailyRow
last_row [] = none
last_row (r ∷ rows) = some (later_row r (last_row rows))

abbrev pub is_row_of : ℤ → DailyRow → Bool
is_row_of overview r = is_same r.overview_note_id overview

unfoldable pub find_latest_daily_generation : ℤ → List DailyRow → Option DailyRow
unfolding last_row
find_latest_daily_generation overview rows = last_row (keep_if (is_row_of overview) rows)

-- Whether a row is of the generation of another; old rows have no id and go by their time.
unfoldable pub is_generation_of : DailyRow → DailyRow → Bool
is_generation_of latest r =
    if latest.generation_id == ""
    then r.generation_id == "" && r.assigned_at == latest.assigned_at
    else r.generation_id == latest.generation_id

-- The rows that `storeDailyTasks` inserts, from a position on.
unfoldable pub new_rows : ℤ → String → String → ℕ → List ℤ → List DailyRow
new_rows overview generation assigned idx [] = []
new_rows overview generation assigned idx (task ∷ tasks) =
    record {
      overview_note_id = overview;
      generation_id = generation;
      task_note_id = task;
      assigned_at = assigned;
      position = idx;
    }
    ∷ new_rows overview generation assigned (suc idx) tasks

-- `storeDailyTasks` in its transaction: an error leaves the table as it was.
unfoldable pub store_daily_tasks :
    Bool → ℤ → String → String → List ℤ → List DailyRow → Bool × List DailyRow
unfolding new_rows
store_daily_tasks failed overview generation assigned tasks rows =
    if failed then (false, rows) else (true, rows ++ new_rows overview generation assigned 0 tasks)

-- The key by which the history is grouped.
abbrev pub generation_key : DailyRow → String
generation_key r = if r.generation_id == "" then r.assigned_at else r.generation_id

module _ {T : Type 0} where
  -- ORDER BY position, assigned_at, n.id, for rows joined with their notes.
  unfoldable pub comes_before : DailyRow × T → DailyRow × T → Bool
  comes_before (r, _) (q, _) =
      if not (nat_beq r.position q.position)
      then ltb r.position q.position
      else if not (r.assigned_at == q.assigned_at)
      then is_before r.assigned_at q.assigned_at
      else not (is_le q.task_note_id r.task_note_id)

  unfoldable pub put_in_order : DailyRow × T → List (DailyRow × T) → List (DailyRow × T)
  put_in_order r [] = r ∷ []
  put_in_order r (q ∷ rows) =
      let rest = q ∷ put_in_order r rows in if comes_before q r then rest else r ∷ q ∷ rows

  unfoldable pub order_rows : List (DailyRow × T) → List (DailyRow × T)
  order_rows [] = []
  order_rows (r ∷ rows) = put_in_order r (order_rows rows)

  abbrev pub cons_found : DailyRow → Option T → List (DailyRow × T) → List (DailyRow × T)
  cons_found r none rows = rows
  cons_found r (some t) rows = (r, t) ∷ rows

  -- JOIN notes: a row whose task is gone is dropped. `find_task` reads the other tables.
  unfoldable pub join_tasks : (ℤ → Option T) → List DailyRow → List (DailyRow × T)
  join_tasks find_task [] = []
  join_tasks find_task (r ∷ rows) =
      cons_found r (find_task r.task_note_id) (join_tasks find_task rows)

  unfoldable pub tasks_of : List (DailyRow × T) → List T
  tasks_of [] = []
  tasks_of ((r, t) ∷ rows) = t ∷ tasks_of rows

  abbrev pub load_generation : (ℤ → Option T) → ℤ → List DailyRow → Option DailyRow → List T
  load_generation find_task overview rows none = []
  load_generation find_task overview rows (some latest) = tasks_of (
      order_rows (
        join_tasks find_task
          (keep_if (λ r. is_row_of overview r && is_generation_of latest r) rows)))

  unfoldable pub load_daily_tasks : (ℤ → Option T) → ℤ → List DailyRow → List T
  unfolding find_latest_daily_generation
  load_daily_tasks find_task overview rows =
      load_generation find_task overview rows (find_latest_daily_generation overview rows)

  -- A row joins the entry of the row behind it, if they have one key, or begins an entry.
  abbrev pub join_entry :
      DailyRow → T → List (String × DailyHistoryEntry T) → List (String × DailyHistoryEntry T)
  join_entry r t [] =
      (generation_key r, record { generated_at = r.assigned_at; tasks = t ∷ [] }) ∷ []
  join_entry r t ((k, e) ∷ more) =
      if k == generation_key r
      then (k, record { generated_at = r.assigned_at; tasks = t ∷ e.tasks }) ∷ more
      else (generation_key r, record { generated_at = r.assigned_at; tasks = t ∷ [] })
        ∷ (k, e)
        ∷ more

  -- The last loop of `loadDailyHistory`: a run of rows with one key is one entry, which has the time of
  -- its first row.
  unfoldable pub group_rows : List (DailyRow × T) → List (String × DailyHistoryEntry T)
  group_rows [] = []
  group_rows ((r, t) ∷ rows) = join_entry r t (group_rows rows)
