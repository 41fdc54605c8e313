-- ===== src/TaskOverview/Selection.antt =====
-- Which tasks the daily selection holds.
use mathlib.Core.List.{Memᴰ, Permᴰ}
use mathlib.Core.List.Permᴰ
use mathlib.Core.List.Memᴰ
use mentis_eterna.Prelude.{
  ℕ, zero, suc, ◌+◌, ◌-◌, min, max, String, Bool, true, not, ◌&&◌, ◌||◌, Option, List, [], ◌∷◌, map,
  keep_if, length, take, length-append, length-take, Bool-cases, inl, inr, ◌≡◌, refl, ap, ◌∙◌, ◌==◌,
  string_key, mem-perm, mem-keep_if, arith,
}
use mentis_eterna.Prelude.Integers.{ℤ}
use mentis_eterna.TaskOverview.Types.{TaskOverviewConfig, TaskSummary}
use mentis_eterna.TaskOverview.Scoring.{
  Float64, is_due_soon, compute_due_in_days, forced_generation_reasons, normalize_overview_config,
  is_forced, target_count, select_daily_tasks, score_task, goes_before, is_open, score_open_tasks,
}

module _ {A : Type 0} where
  mem-take : {a : A} (n : ℕ) (xs : List A) → Memᴰ a (take n xs) → Memᴰ a xs
  mem-take zero xs m = elim m [ ]
  mem-take (suc n) [] m = elim m [ ]
  mem-take (suc n) (x ∷ xs) (Memᴰ.head e) = Memᴰ.head e
  mem-take (suc n) (x ∷ xs) (Memᴰ.tail m) = Memᴰ.tail (mem-take n xs m)

  mem_of_cons :
      {a : A} (p : A → Bool) (x : A) (xs ys : List A)
      → p x ≡ true
      → (Memᴰ a ys → Memᴰ a xs × (p a ≡ true))
      → Memᴰ a (x ∷ ys)
      → Memᴰ a (x ∷ xs) × (p a ≡ true)
  mem_of_cons p x xs ys e ih (Memᴰ.head h) = (Memᴰ.head h, ap p h ∙ e)
  mem_of_cons p x xs ys e ih (Memᴰ.tail m) = let (k, h) = ih m in (Memᴰ.tail k, h)

  mem_of_kept :
      {a : A} (p : A → Bool) (xs : List A) → Memᴰ a (keep_if p xs) → Memᴰ a xs × (p a ≡ true)
  mem_of_kept p [] m = elim m [ ]
  mem_of_kept p (x ∷ xs) m = elim (Bool-cases (p x)) [
    | inl e ↦ mem_of_cons p x xs (keep_if p xs) e (mem_of_kept p xs) (rw e at m)
    | inr e ↦ let (k, h) = mem_of_kept p xs (rw e at m) in (Memᴰ.tail k, h)
  ]

  length-keep_if :
      (p : A → Bool) (xs : List A)
      → length (keep_if p xs) + length (keep_if (λ x. not (p x)) xs) ≡ length xs
  length-keep_if p [] = refl
  length-keep_if p (x ∷ xs) = ground (arith, length-keep_if p xs)

module _ {F : Type 0} where
  -- A daily selection has as many tasks as are asked for, or as are forced where these are more, but no
  -- more than there are.
  pub select_daily_tasks-length :
      (scored : List (TaskSummary F)) (cfg : TaskOverviewConfig F) (count_override : ℤ)
      → length (select_daily_tasks scored cfg count_override)
        ≡ min
            (length scored)
            (max (target_count cfg count_override) (length (keep_if is_forced scored)))
  unfolding select_daily_tasks
  select_daily_tasks-length scored cfg count_override =
      let forced = keep_if is_forced scored in
      let optional = keep_if (λ t. not (is_forced t)) scored in
      let room = max (target_count cfg count_override) (length forced) - length forced in
      omega (
        arith,
        length-append forced (take room optional),
        length-take room optional,
        length-keep_if is_forced scored,
      )

  select-mem :
      (scored : List (TaskSummary F)) (cfg : TaskOverviewConfig F) (count_override : ℤ)
      (t : TaskSummary F)
      → Memᴰ t scored
      → is_forced t ≡ true
      → Memᴰ t (select_daily_tasks scored cfg count_override)
  unfolding select_daily_tasks
  select-mem scored cfg count_override t m h =
      Memᴰ.append_left (take _ (keep_if (λ t. not (is_forced t)) scored))
        (mem-keep_if is_forced scored h m)

  mem-select :
      (scored : List (TaskSummary F)) (cfg : TaskOverviewConfig F) (count_override : ℤ)
      (t : TaskSummary F)
      → Memᴰ t (select_daily_tasks scored cfg count_override)
      → Memᴰ t scored
  unfolding select_daily_tasks
  mem-select scored cfg count_override t m = elim (Memᴰ.append_cases (keep_if is_forced scored) m) [
    | inl k ↦ (mem_of_kept is_forced scored k).0
    | inr k ↦ (mem_of_kept (λ t. not (is_forced t)) scored (mem-take _ _ k)).0
  ]

-- The documented behaviour of the sort: it puts what it is given in some order.
abbrev pub Permutes :
    {F : Type 0}
    → ((TaskSummary F → TaskSummary F → Bool) → List (TaskSummary F) → List (TaskSummary F))
    → Type 0
Permutes {F = F} stable_sort =
    (less : TaskSummary F → TaskSummary F → Bool) (ts : List (TaskSummary F))
    → Permᴰ (stable_sort less ts) ts

-- What makes a task urgent: a due date that is near, or that it is begun and not exempt.
abbrev pub is_urgent :
    {F : Type 0} → (String → Option ℕ) → TaskOverviewConfig F → ℕ → TaskSummary F → Bool
is_urgent parse_date cfg today t =
    is_due_soon (normalize_overview_config cfg).urgent_due_days
      (compute_due_in_days parse_date t.due_date today)
    || t.status == "in_progress" && not t.pending_does_not_force_daily_inclusion

module _ {F : Type 0} (f : Float64 F)
    (stable_sort : (TaskSummary F → TaskSummary F → Bool)
      → List (TaskSummary F)
      → List (TaskSummary F))
    (parse_date : String → Option ℕ) where
  is_forced-score_task :
      (cfg : TaskOverviewConfig F) (today : ℕ) (t : TaskSummary F)
      → is_forced (score_task f parse_date (normalize_overview_config cfg) today t)
        ≡ is_urgent parse_date cfg today t
  unfolding score_task forced_generation_reasons
  is_forced-score_task cfg today t = ground arith

  -- Every open task that is due soon, or begun and not exempt, is in the daily selection, however small
  -- the selection is.
  pub selected_if_urgent :
      (tasks : List (TaskSummary F)) (cfg : TaskOverviewConfig F) (today : ℕ) (count_override : ℤ)
      (t : TaskSummary F)
      → Permutes stable_sort
      → Memᴰ t tasks
      → is_open t ≡ true
      → is_urgent parse_date cfg today t ≡ true
      → Memᴰ (score_task f parse_date (normalize_overview_config cfg) today t) (
          select_daily_tasks
            (score_open_tasks f stable_sort parse_date tasks cfg today)
            cfg
            count_override)
  unfolding score_open_tasks
  selected_if_urgent tasks cfg today count_override t permutes m o u =
      let score = score_task f parse_date (normalize_overview_config cfg) today in
      let there : Memᴰ (score t) (map score (keep_if is_open tasks)) =
        Memᴰ.map score (mem-keep_if is_open tasks o m) in
      select-mem _ cfg count_override (score t)
        (mem-perm (Permᴰ.symm (permutes (goes_before f) _)) there)
        (is_forced-score_task cfg today t ∙ u)

  -- The daily selection holds nothing but scored open tasks.
  pub selected_only_open :
      (tasks : List (TaskSummary F)) (cfg : TaskOverviewConfig F) (today : ℕ) (count_override : ℤ)
      (s : TaskSummary F)
      → Permutes stable_sort
      → Memᴰ s (
          select_daily_tasks
            (score_open_tasks f stable_sort parse_date tasks cfg today)
            cfg
            count_override)
      → (t : TaskSummary F) × Memᴰ t tasks
        × (is_open t ≡ true)
        × (score_task f parse_date (normalize_overview_config cfg) today t ≡ s)
  unfolding score_open_tasks
  selected_only_open tasks cfg today count_override s permutes m =
      let score = score_task f parse_date (normalize_overview_config cfg) today in
      let there = mem-perm (permutes (goes_before f) _) (mem-select _ cfg count_override s m) in
      let (t, k, e) = Memᴰ.of_map score (keep_if is_open tasks) there in
      let (at, o) = mem_of_kept is_open tasks k in (t, at, o, e)
