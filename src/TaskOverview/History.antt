-- ===== src/TaskOverview/History.antt =====
-- The grouping of the daily history.
use mentis_eterna.Prelude.{
  ==→eq, Bool-cases, List, String, [], ap, false, if◌then◌else◌, inl, inr, map, refl, sym, ◌++◌,
  ◌==◌, ◌∙◌, ◌∷◌, ◌≡◌, nat_key, string_key,
}
use mentis_eterna.TaskOverview.Types.{DailyHistoryEntry}
use mentis_eterna.TaskOverview.Daily.{DailyRow, generation_key, group_rows, join_entry}

module _ {T : Type 0} where
  -- The tasks of all entries, one after the other, each with the generation of its entry.
  abbrev pub keyed_tasks : List (String × DailyHistoryEntry T) → List (String × T)
  keyed_tasks [] = []
  keyed_tasks ((k, e) ∷ more) = map (λ t. (k, t)) e.tasks ++ keyed_tasks more

  -- The tasks of the rows, each with its generation.
  abbrev pub keyed_rows : List (DailyRow × T) → List (String × T)
  keyed_rows [] = []
  keyed_rows ((r, t) ∷ rows) = (generation_key r, t) ∷ keyed_rows rows

  -- Entries that follow each other have different keys.
  abbrev pub IsGrouped : List (String × DailyHistoryEntry T) → Type 0
  IsGrouped [] = Unit
  IsGrouped ((k, e) ∷ []) = Unit
  IsGrouped ((k, e) ∷ (j, d) ∷ more) = ((j == k) ≡ false) × IsGrouped ((j, d) ∷ more)

  abbrev pub times : List (String × DailyHistoryEntry T) → List String
  times [] = []
  times ((k, e) ∷ more) = e.generated_at ∷ times more

  -- The times of the rows whose generation is not that of the row before, which has `key`.
  abbrev pub changes : String → List (DailyRow × T) → List String
  changes key [] = []
  changes key ((r, t) ∷ rows) =
      let rest = changes (generation_key r) rows in
      if generation_key r == key then rest else r.assigned_at ∷ rest

  -- The first row begins an entry.
  abbrev pub start_times : List (DailyRow × T) → List String
  start_times [] = []
  start_times ((r, t) ∷ rows) = r.assigned_at ∷ changes (generation_key r) rows

  abbrev Tells : List (DailyRow × T) → List (String × DailyHistoryEntry T) → Type 0
  Tells rows entries = (keyed_tasks entries ≡ keyed_rows rows) × IsGrouped entries

  IsGrouped-entry :
      (k : String) (e d : DailyHistoryEntry T) (more : List (String × DailyHistoryEntry T))
      → IsGrouped ((k, e) ∷ more)
      → IsGrouped ((k, d) ∷ more)
  IsGrouped-entry k e d [] h = tt
  IsGrouped-entry k e d ((j, x) ∷ more) h = h

  join_entry-Tells :
      (r : DailyRow) (t : T) (rows : List (DailyRow × T))
      (entries : List (String × DailyHistoryEntry T))
      → Tells rows entries
      → Tells ((r, t) ∷ rows) (join_entry r t entries)
  join_entry-Tells r t rows [] (h, g) = (ap (λ l. (generation_key r, t) ∷ l) h, tt)
  join_entry-Tells r t rows ((k, e) ∷ more) (h, g) = elim (Bool-cases (k == generation_key r)) [
    | inl same ↦ rw same (
      ap (λ j. (j, t) ∷ keyed_tasks ((k, e) ∷ more)) (==→eq k (generation_key r) same)
          ∙ ap (λ l. (generation_key r, t) ∷ l) h,
      IsGrouped-entry k e (record { generated_at = r.assigned_at; tasks = t ∷ e.tasks }) more g,
    )
    | inr other ↦ rw other (ap (λ l. (generation_key r, t) ∷ l) h, (other, g))
  ]

  group_rows-Tells : (rows : List (DailyRow × T)) → Tells rows (group_rows rows)
  unfolding group_rows
  group_rows-Tells [] = (refl, tt)
  group_rows-Tells ((r, t) ∷ rows) =
      join_entry-Tells r t rows (group_rows rows) (group_rows-Tells rows)

  -- The entries begin with that of a row, and the later ones with a change of the generation.
  abbrev Begins : DailyRow → List (DailyRow × T) → List (String × DailyHistoryEntry T) → Type 0
  Begins r rows [] = ⊥
  Begins r rows ((k, e) ∷ more) =
      (k ≡ generation_key r)
      × (e.generated_at ≡ r.assigned_at)
      × (times more ≡ changes (generation_key r) rows)

  join_entry-Begins :
      (r q : DailyRow) (t u : T) (rows : List (DailyRow × T))
      (entries : List (String × DailyHistoryEntry T))
      → Begins q rows entries
      → Begins r ((q, u) ∷ rows) (join_entry r t entries)
  join_entry-Begins r q t u rows [] b = absurd b
  join_entry-Begins r q t u rows ((k, e) ∷ more) (key, time, later) =
      let kept : (k == generation_key r) ≡ (generation_key q == generation_key r) =
        ap (λ j. j == generation_key r) key in
      elim (Bool-cases (k == generation_key r)) [
        | inl same ↦ rw same (rw (sym kept ∙ same) (==→eq k (generation_key r) same, refl, later))
        | inr other ↦ rw other (
            rw (sym kept ∙ other)
              (refl, refl, ap (λ a. a ∷ times more) time ∙ ap (λ l. q.assigned_at ∷ l) later))
      ]

  group_rows-Begins :
      (r : DailyRow) (t : T) (rows : List (DailyRow × T))
      → Begins r rows (group_rows ((r, t) ∷ rows))
  unfolding group_rows
  group_rows-Begins r t [] = (refl, refl, refl)
  group_rows-Begins r t ((q, u) ∷ rows) =
      join_entry-Begins r q t u rows (group_rows ((q, u) ∷ rows)) (group_rows-Begins q u rows)

  times_of :
      (r : DailyRow) (rows : List (DailyRow × T)) (entries : List (String × DailyHistoryEntry T))
      → Begins r rows entries
      → times entries ≡ r.assigned_at ∷ changes (generation_key r) rows
  times_of r rows [] b = absurd b
  times_of r rows ((k, e) ∷ more) (key, time, later) =
      ap (λ a. a ∷ times more) time ∙ ap (λ l. r.assigned_at ∷ l) later

  group_rows-times : (rows : List (DailyRow × T)) → times (group_rows rows) ≡ start_times rows
  unfolding group_rows
  group_rows-times [] = refl
  group_rows-times ((r, t) ∷ rows) =
      times_of r rows (group_rows ((r, t) ∷ rows)) (group_rows-Begins r t rows)

  -- Read through, the history holds the task of every row once and in order, each in an entry of the
  -- generation of its row; no two neighbouring entries are of one generation; and the times of the
  -- entries are those of the rows where the generation changes.
  pub group_rows-IsGrouped :
      (rows : List (DailyRow × T))
      → (keyed_tasks (group_rows rows) ≡ keyed_rows rows)
        × IsGrouped (group_rows rows)
        × (times (group_rows rows) ≡ start_times rows)
  group_rows-IsGrouped rows = let (h, g) = group_rows-Tells rows in (h, g, group_rows-times rows)
