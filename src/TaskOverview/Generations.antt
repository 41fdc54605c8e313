-- ===== src/TaskOverview/Generations.antt =====
-- Storing a daily selection and loading it again.
use mathlib.Core.List.{Memᴰ, append-nil}
use mathlib.Core.Bool.{true≢false}
use mentis_eterna.Prelude.{
  ℕ, suc, ◌≤◌, String, Bool, true, false, ◌&&◌, Option, none, some, List, [], ◌∷◌, ◌++◌, All,
  All-at, keep_if, map, Bool-cases, Option-cases, inl, inr, ◌≡◌, ◌≢◌, refl, sym, ap, ◌∙◌, ==_refl,
  ==_ne, string_key, arith,
}
use mentis_eterna.Prelude.Integers.{ℤ}
use mentis_eterna.TaskOverview.Types.{TaskSummary, TaskOverviewConfig}
use mentis_eterna.TaskOverview.Scoring.{Float64, is_open, score_open_tasks, select_daily_tasks}
use mentis_eterna.TaskOverview.Selection.{Permutes, selected_only_open}
use mentis_eterna.TaskOverview.Daily.{
  DailyRow, last_row, is_row_of, find_latest_daily_generation, is_generation_of, new_rows,
  store_daily_tasks, comes_before, put_in_order, order_rows, join_tasks, tasks_of, load_generation,
  load_daily_tasks,
}
use mentis_eterna.TaskOverview.Latest.{
  is_same_refl, keep_if-append, keep_if-every, keep_if-none, ComesAfter, IsNew, LastIsNew,
  new_rows-IsNew, last_row-append, All-keep_if,
}

module _ (overview : ℤ) (generation assigned : String) where
  -- The rows of the note so far are of earlier times and other generations.
  abbrev pub IsFresh : List DailyRow → Type 0
  IsFresh = All (λ r. is_row_of overview r ≡ true → ComesAfter generation assigned r)

  old_apart :
      (q : DailyRow) (rows : List DailyRow)
      → generation ≢ ""
      → IsNew overview generation assigned q
      → IsFresh rows
      → All (λ r. (is_row_of overview r && is_generation_of q r) ≡ false) rows
  unfolding is_generation_of
  old_apart q [] ne k h = tt
  old_apart q (r ∷ rows) ne k h = (
    elim (Bool-cases (is_row_of overview r)) [
      | inl e ↦
          rw e (rw k.1 (rw (==_ne generation "" ne) (==_ne r.generation_id generation (h.0 e).2)))
      | inr e ↦ rw e refl
    ],
    old_apart q rows ne k h.1,
  )

  new_along :
      (q : DailyRow) (rows : List DailyRow)
      → generation ≢ ""
      → IsNew overview generation assigned q
      → All (IsNew overview generation assigned) rows
      → All (λ r. (is_row_of overview r && is_generation_of q r) ≡ true) rows
  unfolding is_generation_of
  new_along q [] ne k h = tt
  new_along q (r ∷ rows) ne k h = (
    rw (h.0.0) (
        rw (is_same_refl overview)
          (rw k.1 (rw (==_ne generation "" ne) (rw (h.0.1) (==_refl generation))))),
    new_along q rows ne k h.1,
  )

  new_rows_of :
      (rows : List DailyRow)
      → All (IsNew overview generation assigned) rows
      → All (λ r. is_row_of overview r ≡ true) rows
  new_rows_of [] h = tt
  new_rows_of (r ∷ rows) h = (rw (h.0.0) (is_same_refl overview), new_rows_of rows h.1)

latest_new :
    (overview id : ℤ) (generation assigned : String) (ids : List ℤ) (old : List DailyRow)
    → All (ComesAfter generation assigned) old
    → LastIsNew overview generation assigned
        (last_row (old ++ new_rows overview generation assigned 0 (id ∷ ids)))
unfolding new_rows
latest_new overview id generation assigned ids old a =
    last_row-append overview generation assigned old _ (new_rows overview generation assigned 1 ids)
      a (new_rows-IsNew overview generation assigned 0 (id ∷ ids))

module _ {T : Type 0} (find_task : ℤ → Option T) where
  -- The tasks of a list of ids that still exist.
  unfoldable pub found : List ℤ → List T
  found [] = []
  found (id ∷ ids) = cons_task (find_task id) (found ids)
    where
      cons_task : Option T → List T → List T
      cons_task none ts = ts
      cons_task (some t) ts = t ∷ ts

  joined_after :
      (overview : ℤ) (generation assigned : String) (n idx : ℕ) (ids : List ℤ)
      → n ≤ idx
      → All
          (λ q. n ≤ q.0.position)
          (join_tasks find_task (new_rows overview generation assigned idx ids))
  unfolding join_tasks new_rows
  joined_after overview generation assigned n idx [] le = tt
  joined_after overview generation assigned n idx (id ∷ ids) le =
      elim (Option-cases (find_task id)) [
        | inl e ↦ rw e (joined_after overview generation assigned n (suc idx) ids (omega arith))
        | inr (t, e) ↦
            rw e (le, joined_after overview generation assigned n (suc idx) ids (omega arith))
      ]

  put_first :
      (r : DailyRow) (t : T) (rows : List (DailyRow × T))
      → All (λ q. suc r.position ≤ q.0.position) rows
      → put_in_order (r, t) rows ≡ (r, t) ∷ rows
  unfolding put_in_order comes_before
  put_first r t [] h = refl
  put_first r t (q ∷ rows) h = ground (arith, h.0)

  order_rows-join_tasks :
      (overview : ℤ) (generation assigned : String) (idx : ℕ) (ids : List ℤ)
      → let rows = join_tasks find_task (new_rows overview generation assigned idx ids) in
        order_rows rows ≡ rows
  unfolding order_rows join_tasks new_rows
  order_rows-join_tasks overview generation assigned idx [] = refl
  order_rows-join_tasks overview generation assigned idx (id ∷ ids) =
      let ih = order_rows-join_tasks overview generation assigned (suc idx) ids in
      elim (Option-cases (find_task id)) [
        | inl e ↦ rw e ih
        | inr (t, e) ↦ rw e (
            ap (put_in_order _) ih
            ∙ put_first _ t
                (join_tasks find_task (new_rows overview generation assigned (suc idx) ids))
                (joined_after overview generation assigned (suc idx) (suc idx) ids (omega arith)))
      ]

  tasks_of-join_tasks :
      (overview : ℤ) (generation assigned : String) (idx : ℕ) (ids : List ℤ)
      → tasks_of (join_tasks find_task (new_rows overview generation assigned idx ids)) ≡ found ids
  unfolding tasks_of join_tasks new_rows found
  tasks_of-join_tasks overview generation assigned idx [] = refl
  tasks_of-join_tasks overview generation assigned idx (id ∷ ids) =
      let ih = tasks_of-join_tasks overview generation assigned (suc idx) ids in
      elim (Option-cases (find_task id)) [
        | inl e ↦ rw e ih
        | inr (t, e) ↦ rw e (ap (λ ts. t ∷ ts) ih)
      ]

  load_generation-new :
      (overview : ℤ) (generation assigned : String) (q : DailyRow) (ids : List ℤ)
      (rows : List DailyRow)
      → generation ≢ ""
      → IsNew overview generation assigned q
      → IsFresh overview generation assigned rows
      → load_generation find_task overview
          (rows ++ new_rows overview generation assigned 0 ids)
          (some q)
        ≡ found ids
  load_generation-new overview generation assigned q ids rows ne k fresh =
      let news = new_rows overview generation assigned 0 ids in
      let p : DailyRow → Bool = λ r. is_row_of overview r && is_generation_of q r in
      let split : keep_if p (rows ++ news) ≡ news =
        keep_if-append p rows news
        ∙ rw (keep_if-none p rows (old_apart overview generation assigned q rows ne k fresh)) (
            keep_if-every p news (
              new_along overview generation assigned q news ne k
                (new_rows-IsNew overview generation assigned 0 ids))) in
      ap (λ l. tasks_of (order_rows (join_tasks find_task l))) split
      ∙ ap tasks_of (order_rows-join_tasks overview generation assigned 0 ids)
      ∙ tasks_of-join_tasks overview generation assigned 0 ids

  -- A daily selection that is stored is what is loaded next: its tasks in their order, without those
  -- that are gone. It has at least one task, a name that is new and a time later than all before.
  pub load-store_daily_tasks :
      (overview id : ℤ) (generation assigned : String) (ids : List ℤ) (rows : List DailyRow)
      → generation ≢ ""
      → IsFresh overview generation assigned rows
      → load_daily_tasks find_task overview
          (store_daily_tasks false overview generation assigned (id ∷ ids) rows).1
        ≡ found (id ∷ ids)
  unfolding load_daily_tasks find_latest_daily_generation store_daily_tasks
  load-store_daily_tasks overview id generation assigned ids rows ne fresh =
      let news = new_rows overview generation assigned 0 (id ∷ ids) in
      let all_new = new_rows-IsNew overview generation assigned 0 (id ∷ ids) in
      let own : keep_if (is_row_of overview) (rows ++ news)
          ≡ keep_if (is_row_of overview) rows ++ news =
        keep_if-append (is_row_of overview) rows news
        ∙ ap (λ l. keep_if (is_row_of overview) rows ++ l)
            (keep_if-every (is_row_of overview) news
              (new_rows_of overview generation assigned news all_new)) in
      let (q, e, k) =
        latest_new overview id generation assigned ids (keep_if (is_row_of overview) rows)
          (All-keep_if (ComesAfter generation assigned) (is_row_of overview) rows fresh) in
      ap (λ l. load_generation find_task overview (rows ++ news) (last_row l)) own
      ∙ ap (load_generation find_task overview (rows ++ news)) e
      ∙ load_generation-new overview generation assigned q (id ∷ ids) rows ne k fresh

-- `storeDailyTasks` stores the ids of the tasks that were picked.
abbrev pub ids_of : {F : Type 0} → List (TaskSummary F) → List ℤ
ids_of ts = map (λ t. t.note_id) ts

closed_apart :
    {F : Type 0} (t : TaskSummary F) (tasks : List (TaskSummary F))
    → All (λ s. is_open s ≡ false) tasks
    → Memᴰ t tasks
    → is_open t ≡ true
    → ⊥
closed_apart t tasks closed m o =
    true≢false (sym o ∙ All-at (λ s. is_open s ≡ false) tasks closed m)

nothing_in : {A : Type 0} (xs : List A) → ((x : A) → Memᴰ x xs → ⊥) → xs ≡ []
nothing_in [] h = refl
nothing_in (x ∷ xs) h = absurd (h x (Memᴰ.head refl))

-- Where every task is done, nothing is picked, nothing is stored, and the selection of an earlier day is
-- loaded as before.
pub load-store_nothing :
    {F T : Type 0} (f : Float64 F)
    (stable_sort : (TaskSummary F → TaskSummary F → Bool)
      → List (TaskSummary F)
      → List (TaskSummary F))
    (parse_date : String → Option ℕ) (find_task : ℤ → Option T) (tasks : List (TaskSummary F))
    (cfg : TaskOverviewConfig F) (today : ℕ) (count_override overview : ℤ)
    (generation assigned : String) (rows : List DailyRow)
    → Permutes stable_sort
    → All (λ t. is_open t ≡ false) tasks
    → let picked =
        select_daily_tasks
          (score_open_tasks f stable_sort parse_date tasks cfg today)
          cfg
          count_override in
      (picked ≡ [])
      × (load_daily_tasks find_task overview
            (store_daily_tasks false overview generation assigned (ids_of picked) rows).1
          ≡ load_daily_tasks find_task overview rows)
unfolding store_daily_tasks new_rows
load-store_nothing f stable_sort parse_date find_task tasks cfg today count_override overview
      generation assigned rows permutes closed =
    let picked =
      select_daily_tasks (score_open_tasks f stable_sort parse_date tasks cfg today) cfg
        count_override in
    let none_picked : picked ≡ [] = nothing_in picked (λ s m.
      let (t, at, o, _) =
        selected_only_open f stable_sort parse_date tasks cfg today count_override s permutes m in
      closed_apart t tasks closed at o) in
    (
      none_picked,
      ap
            (λ l.
              load_daily_tasks find_task overview
                (rows ++ new_rows overview generation assigned 0 (ids_of l)))
            none_picked
          ∙ ap (load_daily_tasks find_task overview) (append-nil rows),
    )
