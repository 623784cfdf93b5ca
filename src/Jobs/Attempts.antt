-- ===== src/Jobs/Attempts.antt =====
-- How often a job can be started (backend/app/services/job_queue.py): `fail` stops at
-- `max_attempts`, while `recover_orphans` and `retry` re-queue without looking at it.
use Prim.Native.Nat.{max}
use wes.Base.{ℕ, suc, ◌+◌, ◌≤◌, ℤ, ◌≡◌, Option, Text, All, arith}
use wes.Base.{modify-All, update_where-All_to, All-weaken}
use wes.Jobs.State.{JobStatus, Job, Jobs, job_id, queued, paused}
use wes.Jobs.Row.{
  claim, heartbeat, complete, fail, recover, cancel, pause, resume, retry, is_orphan,
}
use wes.Jobs.Queue.{
  recover_orphans, cancel_job, pause_job, resume_job, retry_job, heartbeat_job, complete_job,
  fail_job,
}
use wes.Jobs.Reach.{
  Step, by_enqueue, by_claim, by_heartbeat, by_complete, by_fail, by_cancel, by_pause, by_resume,
  Requeue, by_recover, by_retry, Trace, start, step, requeue, guarded-All, guarded-All_to,
  enqueue-All, claim_next-All,
}

-- A waiting job still has a start before it.
abbrev owed : JobStatus → ℕ
owed queued = 1
owed paused = 1
owed _ = 0

abbrev Granted : ℕ → Job → Type 0
Granted n j = j.attempts + owed j.status ≤ max 1 j.max_attempts + n

module _ (n : ℕ) (j : Job) where
  claim-Granted :
      (w : Text) (now : ℕ) (s : Option ℕ)
      → j.status ≡ queued
      → Granted n j
      → Granted n (claim w now s j)
  unfolding claim
  claim-Granted w now s q g = ground arith

  heartbeat-Granted :
      (now : ℕ) (p : Option ℤ) (m : Option Text) → Granted n j → Granted n (heartbeat now p m j)
  unfolding heartbeat
  heartbeat-Granted now p m g = g

  complete-Granted : (now : ℕ) (r : Text) → Granted n j → Granted n (complete now r j)
  unfolding complete
  complete-Granted now r g = ground arith

  fail-Granted : (now : ℕ) (e : Text) → Granted n j → Granted n (fail now e j)
  unfolding fail
  fail-Granted now e g = ground arith

  cancel-Granted : (now : ℕ) → Granted n j → Granted n (cancel now j)
  unfolding cancel
  cancel-Granted now g = ground arith

  pause-Granted : j.status ≡ queued → Granted n j → Granted n (pause j)
  unfolding pause
  pause-Granted q g = ground arith

  resume-Granted : (now : ℕ) → j.status ≡ paused → Granted n j → Granted n (resume now j)
  unfolding resume
  resume-Granted now q g = ground arith

  recover-Granted : (now : ℕ) → Granted n j → Granted (suc n) (recover now j)
  unfolding recover
  recover-Granted now g = ground arith

  retry-Granted : (now : ℕ) → Granted n j → Granted (suc n) (retry now j)
  unfolding retry
  retry-Granted now g = ground arith

loosen : (n : ℕ) (j : Job) → Granted n j → Granted (suc n) j
loosen n j g = omega arith

Step-Granted : {t u : Jobs} (n : ℕ) → Step t u → All (Granted n) t → All (Granted n) u
unfolding heartbeat_job complete_job fail_job cancel_job pause_job resume_job
Step-Granted {t} n (by_enqueue id now y p m q key e) a =
    rw e (enqueue-All (Granted n) id now y p m q key t (omega arith) a)
Step-Granted {t} n (by_claim w now e) a =
    rw e (claim_next-All (Granted n) w now t (λ s r q. claim-Granted n r w now s q) a)
Step-Granted {t} n (by_heartbeat id now p m e) a =
    rw e (modify-All job_id (Granted n) id _ t (λ r q. heartbeat-Granted n r now p m) a)
Step-Granted {t} n (by_complete id now s e) a =
    rw e (modify-All job_id (Granted n) id _ t (λ r q. complete-Granted n r now s) a)
Step-Granted {t} n (by_fail id now s e) a =
    rw e (modify-All job_id (Granted n) id _ t (λ r q. fail-Granted n r now s) a)
Step-Granted {t} n (by_cancel id now e) a =
    rw e (guarded-All (Granted n) _ _ id t (λ r q. cancel-Granted n r now) a)
Step-Granted {t} n (by_pause id e) a =
    rw e (guarded-All (Granted n) _ _ id t (λ r q. pause-Granted n r (ground arith)) a)
Step-Granted {t} n (by_resume id now e) a =
    rw e (guarded-All (Granted n) _ _ id t (λ r q. resume-Granted n r now (ground arith)) a)

-- A requeued row is granted one more start; the others keep theirs.
Requeue-Granted : {t u : Jobs} (n : ℕ) → Requeue t u → All (Granted n) t → All (Granted (suc n)) u
unfolding recover_orphans retry_job
Requeue-Granted {t} n (by_recover now stale e) a = rw e (
    update_where-All_to (is_orphan now stale) (recover now) (Granted n) (Granted (suc n)) (loosen n)
      (λ r q. recover-Granted n r now) t a)
Requeue-Granted {t} n (by_retry id now e) a = rw e (
    guarded-All_to (Granted n) (Granted (suc n)) _ (retry now) id t (loosen n)
      (λ r q. retry-Granted n r now) a)

Trace-Granted : {n : ℕ} {t : Jobs} → Trace n t → All (Granted n) t
Trace-Granted start = tt
Trace-Granted (step {n} r s) = Step-Granted n s (Trace-Granted r)
Trace-Granted (requeue {n} r s) = Requeue-Granted n s (Trace-Granted r)

abbrev pub WithinGrants : ℕ → Job → Type 0
WithinGrants n j = j.attempts ≤ max 1 j.max_attempts + n

-- After any operations of which `n` were calls of `recover_orphans` or `retry`, no job has been
-- started more than `max_attempts + n` times, or `1 + n` times if `max_attempts` is 0.
pub attempts_bounded : {n : ℕ} {t : Jobs} → Trace n t → All (WithinGrants n) t
attempts_bounded {n} {t} r =
    All-weaken (Granted n) (WithinGrants n) (λ j g. omega arith) t (Trace-Granted r)
