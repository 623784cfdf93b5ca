-- ===== src/Jobs/State.antt =====
-- backend/app/models/jobs.py: a background job, its statuses, and the table of jobs.
-- Identifiers and times (whole seconds) are natural numbers; the counters `attempts` and
-- `max_attempts` start at 0 and 3 and are never lowered, so they are natural too. A message that
-- the code formats is the constructor with the values it shows. JSON texts are what `json.dumps`
-- returned.
use wes.Base.{ℕ, ℤ, Bool, true, false, Option, List, Text}

pub data JobStatus : Type 0 where
  queued running paused completed failed cancelled : JobStatus

-- `JobStatus.TERMINAL`
abbrev pub is_terminal : JobStatus → Bool
is_terminal completed = true
is_terminal failed = true
is_terminal cancelled = true
is_terminal _ = false

abbrev pub is_queued : JobStatus → Bool
is_queued queued = true
is_queued _ = false

abbrev pub is_running : JobStatus → Bool
is_running running = true
is_running _ = false

abbrev pub is_paused : JobStatus → Bool
is_paused paused = true
is_paused _ = false

-- What `progress_message` says.
pub data Message : Type 0 where
  running completed failed recovered cancelled manual_retry : Message
  retry : ℕ → ℕ → ℕ → Message
  custom : Text → Message

pub record Job : Type 0 where
  pub id : ℕ
  pub created_at : ℕ
  pub job_type : Text
  pub payload : Text
  pub status : JobStatus
  pub priority : ℤ
  pub attempts : ℕ
  pub max_attempts : ℕ
  pub progress_pct : ℤ
  pub progress_message : Option Message
  pub result : Option Text
  pub error : Option Text
  pub worker_id : Option Text
  pub idempotency_key : Option Text
  pub heartbeat_at : Option ℕ
  pub scheduled_at : Option ℕ
  pub started_at : Option ℕ
  pub completed_at : Option ℕ

abbrev pub job_id : Job → ℕ
job_id j = j.id

abbrev pub Jobs : Type 0
Jobs = List Job
