-- ===== src/Jobs/Valid.antt =====
-- What holds of every row of the job table, and that each write of a row keeps it.
use wes.Base.{
  ℕ, ◌≤◌, ℤ, pos, ◌≤ℤ◌, ◌≡◌, true, Option, none, some, is_some, Text, length, arith, length-take,
  clamp_bounds,
}
use wes.Jobs.State.{queued, paused, Job, is_running, is_terminal}
use wes.Jobs.Row.{claim, heartbeat, complete, fail, recover, cancel, pause, resume, retry}

abbrev IsShort : Option Text → Type 0
IsShort none = Unit
IsShort (some e) = length e ≤ 2000

-- A running job has an owner, a start, a heartbeat and a counted attempt; a waiting job has no
-- owner; a finished one has its time; the progress is a percentage and the error text is bounded.
pub record IsValid (j : Job) : Type 0 where
  pub progress_low : pos 0 ≤ℤ j.progress_pct
  pub progress_high : j.progress_pct ≤ℤ pos 100
  pub running_owned :
      is_running j.status ≡ true
      → (is_some j.worker_id ≡ true)
        × (is_some j.started_at ≡ true)
        × (is_some j.heartbeat_at ≡ true)
        × (1 ≤ j.attempts)
  pub queued_free : j.status ≡ queued → j.worker_id ≡ none
  pub paused_free : j.status ≡ paused → j.worker_id ≡ none
  pub finished_at : is_terminal j.status ≡ true → is_some j.completed_at ≡ true
  pub error_short : IsShort j.error

pub claim-IsValid :
    (w : Text) (now : ℕ) (s : Option ℕ) (j : Job) → IsValid j → IsValid (claim w now s j)
unfolding claim
claim-IsValid w now s j v = ground arith

pub heartbeat-IsValid :
    (now : ℕ) (p : Option ℤ) (m : Option Text) (j : Job) → IsValid j → IsValid (heartbeat now p m j)
unfolding heartbeat
heartbeat-IsValid now none m j v = ground arith
heartbeat-IsValid now (some p) m j v = ground (arith, clamp_bounds p)

pub complete-IsValid : (now : ℕ) (r : Text) (j : Job) → IsValid j → IsValid (complete now r j)
unfolding complete
complete-IsValid now r j v = ground arith

pub fail-IsValid : (now : ℕ) (e : Text) (j : Job) → IsValid j → IsValid (fail now e j)
unfolding fail
fail-IsValid now e j v = ground (arith, length-take 2000 e)

pub recover-IsValid : (now : ℕ) (j : Job) → IsValid j → IsValid (recover now j)
unfolding recover
recover-IsValid now j v = ground arith

pub cancel-IsValid : (now : ℕ) (j : Job) → IsValid j → IsValid (cancel now j)
unfolding cancel
cancel-IsValid now j v = ground arith

pub pause-IsValid : (j : Job) → j.status ≡ queued → IsValid j → IsValid (pause j)
unfolding pause
pause-IsValid j q v = ground arith

pub resume-IsValid : (now : ℕ) (j : Job) → j.status ≡ paused → IsValid j → IsValid (resume now j)
unfolding resume
resume-IsValid now j q v = ground arith

pub retry-IsValid : (now : ℕ) (j : Job) → IsValid j → IsValid (retry now j)
unfolding retry
retry-IsValid now j v = ground arith
