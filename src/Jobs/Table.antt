-- ===== src/Jobs/Table.antt =====
-- The table `job_runs` (internal/db/db.go) and the statements that internal/jobs/jobs.go makes on it.
-- A statement on the table is one step, since SQLite runs one write at a time.
use mentis_eterna.Prelude.{
  ℕ, suc, String, Bool, true, false, ◌&&◌, ◌||◌, Option, none, some, List, [], ◌∷◌, ◌++◌, ◌==◌,
  nat_key, string_key, if◌then◌else◌,
}

pub data Status : Type 0 where
  planned running done errored cancelled : Status

-- `status IN ('planned','running')`.
abbrev pub is_active : Status → Bool
is_active planned = true
is_active running = true
is_active _ = false

abbrev pub is_planned : Status → Bool
is_planned planned = true
is_planned _ = false

abbrev pub is_running : Status → Bool
is_running running = true
is_running _ = false

-- A row. A NULL is `none`; a time is a number of milliseconds.
pub record Run : Type 0 where
  pub id : ℕ
  pub job_id : ℕ
  pub status : Status
  pub payload : Option String
  pub retry_count : ℕ
  pub started_at : Option ℕ
  pub finished_at : Option ℕ
  pub error : Option String
  pub result : Option String
  pub created_at : ℕ

-- AUTOINCREMENT never gives an id twice: the table remembers the last one.
pub record Table : Type 0 where
  pub rows : List Run
  pub last_id : ℕ

-- `payload IS ?`, where NULL is NULL.
unfoldable pub payload_is : Option String → Option String → Bool
payload_is none none = true
payload_is (some p) (some q) = p == q
payload_is _ _ = false

-- Two payloads that a unique index takes for the same: SQLite keeps NULLs apart.
unfoldable pub payload_clash : Option String → Option String → Bool
payload_clash (some p) (some q) = p == q
payload_clash _ _ = false

-- The partial index idx_job_runs_active_unique refuses a second active row of a job and payload.
unfoldable pub index_refuses : ℕ → Option String → List Run → Bool
index_refuses job payload [] = false
index_refuses job payload (r ∷ rows) =
    is_active r.status && r.job_id == job && payload_clash r.payload payload
    || index_refuses job payload rows

-- A new row, with the defaults of the columns that the INSERT does not give.
abbrev pub planned_row : ℕ → ℕ → Option String → ℕ → ℕ → Run
planned_row id job payload retries now = record {
  id = id;
  job_id = job;
  status = planned;
  payload = payload;
  retry_count = retries;
  started_at = none;
  finished_at = none;
  error = none;
  result = none;
  created_at = now;
}

-- INSERT INTO job_runs (job_id, status, payload, retry_count): `none` where the index refuses.
unfoldable pub insert_row : ℕ → Option String → ℕ → ℕ → Table → Option (ℕ × Table)
insert_row job payload retries now t =
    let id = suc t.last_id in
    if index_refuses job payload t.rows
    then none
    else some
        (id, record { rows = t.rows ++ planned_row id job payload retries now ∷ []; last_id = id })

-- SELECT id … WHERE job_id = ? AND payload IS ? AND status IN ('planned','running') LIMIT 1.
unfoldable pub find_active : ℕ → Option String → List Run → Option ℕ
find_active job payload [] = none
find_active job payload (r ∷ rows) =
    if is_active r.status && r.job_id == job && payload_is r.payload payload
    then some r.id
    else find_active job payload rows

-- SELECT … WHERE id = ?.
unfoldable pub find_run : ℕ → List Run → Option Run
find_run id [] = none
find_run id (r ∷ rows) = if r.id == id then some r else find_run id rows

-- UPDATE job_runs SET … WHERE ….
unfoldable pub update_where : (Run → Bool) → (Run → Run) → List Run → List Run
update_where p f [] = []
update_where p f (r ∷ rows) = (if p r then f r else r) ∷ update_where p f rows

-- The RowsAffected of such an update is not 0.
unfoldable pub any_row : (Run → Bool) → List Run → Bool
any_row p [] = false
any_row p (r ∷ rows) = p r || any_row p rows

-- DELETE FROM job_runs WHERE ….
unfoldable pub delete_where : (Run → Bool) → List Run → List Run
delete_where p [] = []
delete_where p (r ∷ rows) = let rest = delete_where p rows in if p r then rest else r ∷ rest

abbrev pub has_id : ℕ → Run → Bool
has_id id r = r.id == id

-- WHERE id = ? AND status = 'planned'.
abbrev pub is_planned_id : ℕ → Run → Bool
is_planned_id id r = r.id == id && is_planned r.status

-- SET status = 'running', started_at = now.
abbrev pub start_run : ℕ → Run → Run
start_run now r = record r { status = running; started_at = some now }

-- SET status = 'cancelled', finished_at = now.
abbrev pub cancel : ℕ → Run → Run
cancel now r = record r { status = cancelled; finished_at = some now }

-- SET status = 'errored', finished_at = now, error = ?.
abbrev pub fail : ℕ → String → Run → Run
fail now message r = record r { status = errored; finished_at = some now; error = some message }

-- SET status = 'done', finished_at = now, result = ?.
abbrev pub complete : ℕ → String → Run → Run
complete now text r = record r { status = done; finished_at = some now; result = some text }

-- SET status = 'planned', started_at = NULL, error = 'Previous server instance crashed'.
abbrev pub revive : Run → Run
revive r = record r {
  status = planned;
  started_at = none;
  error = some "Previous server instance crashed";
}
