-- ===== src/TaskOverview/Types.antt =====
-- pkg/notetype/taskoverview/types.go. The type of the float64 numbers is a parameter.
use mentis_eterna.Prelude.{ℕ, String, Bool, Option, List}
use mentis_eterna.Prelude.Integers.{ℤ}

pub record TaskOverviewConfig (F : Type 0) : Type 0 where
  pub daily_task_count : ℤ
  pub urgent_due_days : ℤ
  pub priority_weight : F
  pub due_urgency_weight : F
  pub difficulty_weight : F
  pub fun_weight : F
  pub time_estimation_weight : F
  pub fun_time_weight : F

pub record TaskScoreBreakdown (F : Type 0) : Type 0 where
  pub due_urgency : F
  pub priority : F
  pub difficulty : F
  pub fun : F
  pub time_estimation : F
  pub fun_time : F
  pub estimated_hours : F
  pub total : F

-- The two durations are the lists of their bytes.
pub record TaskSummary (F : Type 0) : Type 0 where
  pub note_id : ℤ
  pub title : String
  pub status : String
  pub priority : ℤ
  pub difficulty : ℤ
  pub fun : ℤ
  pub due_date : String
  pub time_estimation : List ℕ
  pub time_used : List ℕ
  pub recurring : String
  pub completed_at : String
  pub created_at : String
  pub updated_at : String
  pub body : String
  pub pending_does_not_force_daily_inclusion : Bool
  pub subtasks_done : ℕ
  pub subtasks_total : ℕ
  pub due_in_days : Option ℤ
  pub generation_score : F
  pub generation_forced_reasons : List String
  pub generation_score_breakdown : TaskScoreBreakdown F

pub record DailyHistoryEntry (T : Type 0) : Type 0 where
  pub generated_at : String
  pub tasks : List T

-- The counts; the averages are left out.
pub record TaskStats : Type 0 where
  pub total : ℕ
  pub todo : ℕ
  pub in_progress : ℕ
  pub done : ℕ
  pub overdue : ℕ
