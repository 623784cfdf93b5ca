-- ===== src/Jobs/Queue.antt =====
-- backend/app/services/job_queue.py: `class JobQueue` over the table of jobs.
use wes.Base.{
  ℕ, ℤ, pos, ltb_ℤ, Bool, true, false, ◌&&◌, ◌||◌, not, Option, none, some, [], ◌∷◌, ◌++◌,
  if◌then◌else◌, ◌==◌, ltb, keep, length, Text, text_eq, is_nonempty, not_found, validation, ok,
  Action, pure, gets, or_raise, raise_if, modify_state, ◌>>=◌, ◌>>◌, first, find, modify,
  update_where,
}
use wes.Jobs.State.{
  JobStatus, queued, failed, cancelled, Job, Jobs, job_id, is_terminal, is_queued, is_paused,
}
use wes.Jobs.Row.{
  heartbeat, complete, fail, claim, recover, cancel, pause, resume, retry, is_due, is_orphan,
}

-- `Job.idempotency_key == key` in SQL: a missing key equals nothing.
abbrev pub has_key : Text → Job → Bool
has_key key j = elim j.idempotency_key [ none ↦ false | some k ↦ text_eq k key ]

-- `if idempotency_key:` and the lookup behind it.
abbrev pub existing : Option Text → Jobs → Option Job
existing none t = none
existing (some key) t = if is_nonempty key then first (has_key key) t else none

-- The row of an `enqueue`. `id` is the new primary key and `payload` the JSON text.
abbrev pub new_job : ℕ → ℕ → Text → Text → ℕ → ℤ → Option Text → Job
new_job id now job_type payload max_attempts priority key = record {
  id = id;
  created_at = now;
  job_type = job_type;
  payload = payload;
  status = queued;
  priority = priority;
  attempts = 0;
  max_attempts = max_attempts;
  progress_pct = pos 0;
  progress_message = none;
  result = none;
  error = none;
  worker_id = none;
  idempotency_key = key;
  heartbeat_at = none;
  scheduled_at = some now;
  started_at = none;
  completed_at = none;
}

unfoldable pub enqueue : ℕ → ℕ → Text → Text → ℕ → ℤ → Option Text → Action Jobs Job
enqueue id now job_type payload max_attempts priority key t = elim (existing key t) [
  | some j ↦ (ok j, t)
  | none ↦
      let j : Job = new_job id now job_type payload max_attempts priority key in (ok j, t ++ j ∷ [])
]

-- `ORDER BY priority DESC, created_at ASC`
abbrev pub precedes : Job → Job → Bool
precedes j k =
    ltb_ℤ k.priority j.priority
    || (not (ltb_ℤ j.priority k.priority) && ltb j.created_at k.created_at)

-- `LIMIT 1`; of rows that the ordering does not tell apart, the first.
unfoldable pub first_ordered : Jobs → Option Job
first_ordered [] = none
first_ordered (j ∷ t) = elim (first_ordered t) [
  | none ↦ some j
  | some k ↦ some (if precedes k j then k else j)
]

unfoldable pub select_candidate : ℕ → Jobs → Option Job
unfolding first_ordered
select_candidate now t = first_ordered (keep (is_due now) t)

-- The WHERE clause of the guarded UPDATE.
abbrev pub still_queued : Job → Job → Bool
still_queued candidate r = r.id == candidate.id && is_queued r.status

-- The guarded UPDATE, the test of its row count, and the refresh.
unfoldable pub claim_candidate : Text → ℕ → Job → Jobs → Option Job × Jobs
claim_candidate worker now c t =
    let t' = update_where (still_queued c) (claim worker now c.started_at) t in
    (if length (keep (still_queued c) t) == 1 then find job_id c.id t' else none, t')

unfoldable pub claim_next : Text → ℕ → Jobs → Option Job × Jobs
unfolding select_candidate claim_candidate
claim_next worker now t = elim (select_candidate now t) [
  | none ↦ (none, t)
  | some c ↦ claim_candidate worker now c t
]

unfoldable pub recover_orphans : ℕ → ℕ → Jobs → ℕ × Jobs
recover_orphans now stale_seconds t = (
  length (keep (is_orphan now stale_seconds) t),
  update_where (is_orphan now stale_seconds) (recover now) t,
)

-- `_get`
abbrev pub get_job : ℕ → Action Jobs Job
get_job id = do or_raise (← gets (find job_id id)) not_found

-- A write to the attributes of a loaded job, and the flush.
abbrev pub write : ℕ → (Job → Job) → Action Jobs (Unit {0})
write id f = modify_state (modify job_id id f)

-- Load the job, refuse it by its status with a `ValidationError`, write it and return it.
unfoldable pub guarded : (JobStatus → Bool) → (Job → Job) → ℕ → Action Jobs Job
guarded refuse f id = do
  job ← get_job id
  raise_if (refuse job.status) validation
  write id f
  pure (f job)

unfoldable pub cancel_job : ℕ → ℕ → Action Jobs Job
unfolding guarded
cancel_job id now = guarded is_terminal (cancel now) id

unfoldable pub pause_job : ℕ → Action Jobs Job
unfolding guarded
pause_job id = guarded (λ s. not (is_queued s)) pause id

unfoldable pub resume_job : ℕ → ℕ → Action Jobs Job
unfolding guarded
resume_job id now = guarded (λ s. not (is_paused s)) (resume now) id

-- `job.status in (FAILED, CANCELLED)`
abbrev pub can_retry : JobStatus → Bool
can_retry failed = true
can_retry cancelled = true
can_retry _ = false

unfoldable pub retry_job : ℕ → ℕ → Action Jobs Job
unfolding guarded
retry_job id now = guarded (λ s. not (can_retry s)) (retry now) id

-- `heartbeat`, `complete` and `fail` write the job that the worker holds, whatever its status.
unfoldable pub heartbeat_job : ℕ → ℕ → Option ℤ → Option Text → Jobs → Jobs
heartbeat_job id now progress_pct message = modify job_id id (heartbeat now progress_pct message)

unfoldable pub complete_job : ℕ → ℕ → Text → Jobs → Jobs
complete_job id now result = modify job_id id (complete now result)

unfoldable pub fail_job : ℕ → ℕ → Text → Jobs → Jobs
fail_job id now error = modify job_id id (fail now error)
