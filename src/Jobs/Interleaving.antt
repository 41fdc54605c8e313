-- ===== src/Jobs/Interleaving.antt =====
-- The workers, clients, the scheduler and the janitor as interleaved statements on the table.
-- A claim stands for the UPDATE of `atomicDequeue` on an id that an earlier SELECT gave, however old.
use mentis_eterna.Prelude.{
  ℕ, String, Bool, true, false, ◌||◌, Option, some, List, [], ◌∷◌, ◌≡◌, nat_key, nat_beq,
  if◌then◌else◌,
}
use mentis_eterna.Jobs.Table.{
  Run, Table, insert_row, update_where, any_row, delete_where, has_id, is_planned_id, start_run,
  cancel, fail, complete,
}
use mentis_eterna.Jobs.Manager.{SqlTime, recover_rows, is_expired}

-- The table, the ids of the runs that the workers execute, and those of the runs that have ended and
-- that a worker still announces to the observer. A panic of the observer is recovered as one of the
-- task is, until the announcement is over.
pub record World : Type 0 where
  pub table : Table
  pub held : List ℕ
  pub ending : List ℕ

abbrev pub member : ℕ → List ℕ → Bool
member i [] = false
member i (j ∷ js) = nat_beq j i || member i js

abbrev pub without : ℕ → List ℕ → List ℕ
without i [] = []
without i (j ∷ js) = let rest = without i js in if nat_beq j i then rest else j ∷ rest

abbrev pub on_rows : (List Run → List Run) → World → World
on_rows f w = record w { table = record w.table { rows = f w.table.rows } }

pub data Step : World → World → Type 0 where
  insert :
      (job : ℕ) (payload : Option String) (retries now : ℕ) (w : World) (id : ℕ) (t : Table)
      → insert_row job payload retries now w.table ≡ some (id, t)
      → Step w (record w { table = t })
  cancel_planned :
      (id now : ℕ) (w : World) → Step w (on_rows (update_where (is_planned_id id) (cancel now)) w)
  claim :
      (id now : ℕ) (w : World)
      → any_row (is_planned_id id) w.table.rows ≡ true
      → Step w (record (on_rows (update_where (is_planned_id id) (start_run now)) w) {
        held = id ∷ w.held;
      })
  finish_done :
      (id now : ℕ) (text : String) (w : World)
      → member id w.held ≡ true
      → Step w (record (on_rows (update_where (has_id id) (complete now text)) w) {
        held = without id w.held;
        ending = id ∷ w.ending;
      })
  finish_errored :
      (id now : ℕ) (message : String) (w : World)
      → member id w.held ≡ true
      → Step w (record (on_rows (update_where (has_id id) (fail now message)) w) {
        held = without id w.held;
        ending = id ∷ w.ending;
      })
  -- The observer has returned.
  announced : (id : ℕ) (w : World) → Step w (record w { ending = without id w.ending })
  -- The UPDATE without a guard after a panic, of the task or of the observer of its end; that of a
  -- run without a task is the same.
  recovered :
      (id now : ℕ) (message : String) (w : World)
      → (member id w.held || member id w.ending) ≡ true
      → Step w (record (on_rows (update_where (has_id id) (fail now message)) w) {
        held = without id w.held;
        ending = without id w.ending;
      })
  clean :
      (clock : SqlTime) (now : ℕ) (w : World)
      → Step w (on_rows (delete_where (is_expired clock now)) w)
  restart :
      (now : ℕ) (tasks : List ℕ) (w : World)
      → Step w (record (on_rows (recover_rows now tasks) w) { held = []; ending = [] })

pub data Reach (v : World) : World → Type 0 where
  here : Reach v v
  next : {w u : World} → Reach v w → Step w u → Reach v u
