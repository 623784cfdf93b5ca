-- ===== src/Jobs/Row.antt =====
-- backend/app/services/job_queue.py: what each operation writes to the row of one job. `now` is
-- what `_now()` returns at the call.
use wes.Base.{
  ℕ, zero, suc, ◌+◌, ◌-◌, ℤ, pos, max_ℤ, min_ℤ, Bool, true, ◌&&◌, Option, none, some, List, [], ◌∷◌,
  ltb, leb, if◌then◌else◌, take, length, Text,
}
use Prim.Native.Nat.{min}
use wes.Jobs.State.{
  queued, running, paused, completed, failed, cancelled, Message, Job, is_queued, is_running,
}

-- `_BACKOFF`
abbrev pub backoff_table : List ℕ
backoff_table = 0 ∷ 5 ∷ 15 ∷ 60 ∷ 300 ∷ []

abbrev nth : List ℕ → ℕ → ℕ
nth [] i = 0
nth (x ∷ xs) zero = x
nth (x ∷ xs) (suc i) = nth xs i

-- `_BACKOFF[min(attempts, len(_BACKOFF) - 1)]`; the index is always in range.
unfoldable pub backoff : ℕ → ℕ
backoff attempts = nth backoff_table (min attempts (length backoff_table - 1))

abbrev pub default_stale_seconds : ℕ
default_stale_seconds = 120

-- `a or b` on times; a datetime is always true.
abbrev pub or_else : Option ℕ → ℕ → ℕ
or_else none b = b
or_else (some a) b = a

-- The values of the guarded UPDATE in `claim_next`; `started` is the candidate's `started_at` as it
-- was selected.
unfoldable pub claim : Text → ℕ → Option ℕ → Job → Job
claim worker now started j = record j {
  status = running;
  worker_id = some worker;
  attempts = j.attempts + 1;
  started_at = some (or_else started now);
  heartbeat_at = some now;
  progress_message = some Message.running;
}

abbrev keep_message : Option Text → Option Message → Option Message
keep_message none old = old
keep_message (some m) old = some (Message.custom m)

abbrev keep_progress : Option ℤ → ℤ → ℤ
keep_progress none old = old
keep_progress (some p) old = max_ℤ (pos 0) (min_ℤ (pos 100) p)

unfoldable pub heartbeat : ℕ → Option ℤ → Option Text → Job → Job
heartbeat now progress_pct message j = record j {
  heartbeat_at = some now;
  progress_pct = keep_progress progress_pct j.progress_pct;
  progress_message = keep_message message j.progress_message;
}

unfoldable pub complete : ℕ → Text → Job → Job
complete now result j = record j {
  status = completed;
  progress_pct = pos 100;
  progress_message = some Message.completed;
  result = some result;
  completed_at = some now;
}

unfoldable pub fail : ℕ → Text → Job → Job
unfolding backoff
fail now error j =
    if ltb j.attempts j.max_attempts
    then (record j {
      error = some (take 2000 error);
      status = queued;
      worker_id = none;
      scheduled_at = some (now + backoff j.attempts);
      progress_message = some (Message.retry j.attempts j.max_attempts (backoff j.attempts));
    })
    else (record j {
      error = some (take 2000 error);
      status = failed;
      completed_at = some now;
      progress_message = some Message.failed;
    })

-- The heartbeat is before `now - stale_seconds`, or was never written.
abbrev is_stale : ℕ → ℕ → Option ℕ → Bool
is_stale now stale_seconds none = true
is_stale now stale_seconds (some beat) = ltb (beat + stale_seconds) now

-- The WHERE clause of `recover_orphans`.
abbrev pub is_orphan : ℕ → ℕ → Job → Bool
is_orphan now stale_seconds j = is_running j.status && is_stale now stale_seconds j.heartbeat_at

unfoldable pub recover : ℕ → Job → Job
recover now j = record j {
  status = queued;
  worker_id = none;
  scheduled_at = some now;
  progress_message = some Message.recovered;
}

unfoldable pub cancel : ℕ → Job → Job
cancel now j = record j {
  status = cancelled;
  completed_at = some now;
  progress_message = some Message.cancelled;
}

unfoldable pub pause : Job → Job
pause j = record j { status = paused }

unfoldable pub resume : ℕ → Job → Job
resume now j = record j { status = queued; scheduled_at = some now }

unfoldable pub retry : ℕ → Job → Job
retry now j = record j {
  status = queued;
  worker_id = none;
  error = none;
  scheduled_at = some now;
  progress_message = some Message.manual_retry;
}

abbrev scheduled_by : ℕ → Option ℕ → Bool
scheduled_by now none = true
scheduled_by now (some at) = leb at now

-- The WHERE clause of the SELECT in `claim_next`.
abbrev pub is_due : ℕ → Job → Bool
is_due now j = is_queued j.status && scheduled_by now j.scheduled_at
