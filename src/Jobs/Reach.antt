-- ===== src/Jobs/Reach.antt =====
-- The tables that the queue can reach, by any order of its operations, and what holds of every row
-- in them.
use wes.Base.{
  ℕ, suc, ℤ, ◌≡◌, inl, inr, Bool, false, Option, [], ◌∷◌, Text, All, All-append, arith, Bool-cases,
  Option-cases, find, modify-All, modify-All_to, All-weaken, update_where-All,
}
use wes.Jobs.State.{JobStatus, Job, Jobs, job_id, queued}
use wes.Jobs.Row.{
  claim, heartbeat, complete, fail, recover, cancel, pause, resume, retry, is_orphan,
}
use wes.Jobs.Queue.{
  enqueue, existing, new_job, claim_next, select_candidate, still_queued, recover_orphans, guarded,
  cancel_job, pause_job, resume_job, retry_job, heartbeat_job, complete_job, fail_job,
}
use wes.Jobs.Guards.{guarded-missing, guarded-refused, guarded-accepted}
use wes.Jobs.Valid.{
  IsValid, claim-IsValid, heartbeat-IsValid, complete-IsValid, fail-IsValid, recover-IsValid,
  cancel-IsValid, pause-IsValid, resume-IsValid, retry-IsValid,
}

-- An operation that gives no job another attempt.
pub data Step (t u : Jobs) : Type 0 where
  by_enqueue :
      (id now : ℕ) (job_type payload : Text) (max_attempts : ℕ) (priority : ℤ) (key : Option Text)
      → u ≡ (enqueue id now job_type payload max_attempts priority key t).1
      → Step t u
  by_claim : (worker : Text) (now : ℕ) → u ≡ (claim_next worker now t).1 → Step t u
  by_heartbeat :
      (id now : ℕ) (p : Option ℤ) (m : Option Text) → u ≡ heartbeat_job id now p m t → Step t u
  by_complete : (id now : ℕ) (r : Text) → u ≡ complete_job id now r t → Step t u
  by_fail : (id now : ℕ) (e : Text) → u ≡ fail_job id now e t → Step t u
  by_cancel : (id now : ℕ) → u ≡ (cancel_job id now t).1 → Step t u
  by_pause : (id : ℕ) → u ≡ (pause_job id t).1 → Step t u
  by_resume : (id now : ℕ) → u ≡ (resume_job id now t).1 → Step t u

-- An operation that puts a job back in the queue whatever its attempts.
pub data Requeue (t u : Jobs) : Type 0 where
  by_recover : (now stale : ℕ) → u ≡ (recover_orphans now stale t).1 → Requeue t u
  by_retry : (id now : ℕ) → u ≡ (retry_job id now t).1 → Requeue t u

-- The tables reached from the empty one with `n` requeues.
pub data Trace : ℕ → Jobs → Type 0 where
  start : Trace 0 []
  step : {n : ℕ} {t u : Jobs} → Trace n t → Step t u → Trace n u
  requeue : {n : ℕ} {t u : Jobs} → Trace n t → Requeue t u → Trace (suc n) u

pub guarded-All_to :
    (P Q : Job → Type 0) (refuse : JobStatus → Bool) (f : Job → Job) (id : ℕ) (t : Jobs)
    → ((r : Job) → P r → Q r)
    → ((r : Job) → refuse r.status ≡ false → P r → Q (f r))
    → All P t
    → All Q (guarded refuse f id t).1
guarded-All_to P Q refuse f id t kept h a = elim (Option-cases (find job_id id t)) [
  | inl e ↦ rw (guarded-missing refuse f id t e) (All-weaken P Q kept t a)
  | inr (j, e) ↦ elim (Bool-cases (refuse j.status)) [
    | inl b ↦ rw (guarded-refused refuse f id t j e b) (All-weaken P Q kept t a)
    | inr b ↦ rw (guarded-accepted refuse f id t j e b) (
        modify-All_to job_id P Q kept id f t (λ r q. h r (let same : j ≡ r = cc in rw (← same) b))
          a)
  ]
]

module _ (P : Job → Type 0) where
  pub guarded-All :
      (refuse : JobStatus → Bool) (f : Job → Job) (id : ℕ) (t : Jobs)
      → ((r : Job) → refuse r.status ≡ false → P r → P (f r))
      → All P t
      → All P (guarded refuse f id t).1
  guarded-All refuse f id t = guarded-All_to P P refuse f id t (λ r h. h)

  pub enqueue-All :
      (id now : ℕ) (job_type payload : Text) (max_attempts : ℕ) (priority : ℤ) (key : Option Text)
      (t : Jobs)
      → P (new_job id now job_type payload max_attempts priority key)
      → All P t
      → All P (enqueue id now job_type payload max_attempts priority key t).1
  unfolding enqueue
  enqueue-All id now y p m q key t h a = elim (Option-cases (existing key t)) [
    | inl e ↦ rw (e, All) (All-append P t (new_job id now y p m q key ∷ []) a (h, tt))
    | inr (j, e) ↦ rw (e, All) a
  ]

  pub claim_next-All :
      (worker : Text) (now : ℕ) (t : Jobs)
      → ((s : Option ℕ) (r : Job) → r.status ≡ queued → P r → P (claim worker now s r))
      → All P t
      → All P (claim_next worker now t).1
  unfolding claim_next
  claim_next-All worker now t h a = elim (Option-cases (select_candidate now t)) [
    | inl e ↦ rw (e, All) a
    | inr (c, e) ↦
        rw (e, All)
          (update_where-All (still_queued c) (claim worker now c.started_at) P
            (λ r b. h c.started_at r (ground arith)) t a)
  ]

-- Every operation keeps every row valid.
Step-IsValid : {t u : Jobs} → Step t u → All IsValid t → All IsValid u
unfolding heartbeat_job complete_job fail_job cancel_job pause_job resume_job
Step-IsValid {t} (by_enqueue id now y p m q key e) a =
    rw e (enqueue-All IsValid id now y p m q key t (ground arith) a)
Step-IsValid {t} (by_claim w now e) a =
    rw e (claim_next-All IsValid w now t (λ s r q. claim-IsValid w now s r) a)
Step-IsValid {t} (by_heartbeat id now p m e) a =
    rw e (modify-All job_id IsValid id (heartbeat now p m) t (λ r q. heartbeat-IsValid now p m r) a)
Step-IsValid {t} (by_complete id now s e) a =
    rw e (modify-All job_id IsValid id (complete now s) t (λ r q. complete-IsValid now s r) a)
Step-IsValid {t} (by_fail id now s e) a =
    rw e (modify-All job_id IsValid id (fail now s) t (λ r q. fail-IsValid now s r) a)
Step-IsValid {t} (by_cancel id now e) a =
    rw e (guarded-All IsValid _ (cancel now) id t (λ r q. cancel-IsValid now r) a)
Step-IsValid {t} (by_pause id e) a =
    rw e (guarded-All IsValid _ pause id t (λ r q. pause-IsValid r (ground arith)) a)
Step-IsValid {t} (by_resume id now e) a =
    rw e (guarded-All IsValid _ (resume now) id t (λ r q. resume-IsValid now r (ground arith)) a)

Requeue-IsValid : {t u : Jobs} → Requeue t u → All IsValid t → All IsValid u
unfolding recover_orphans retry_job
Requeue-IsValid {t} (by_recover now stale e) a = rw e (
    update_where-All (is_orphan now stale) (recover now) IsValid (λ r q. recover-IsValid now r) t a)
Requeue-IsValid {t} (by_retry id now e) a =
    rw e (guarded-All IsValid _ (retry now) id t (λ r q. retry-IsValid now r) a)

-- In every table that the queue reaches, every row satisfies `IsValid`.
pub Trace-IsValid : {n : ℕ} {t : Jobs} → Trace n t → All IsValid t
Trace-IsValid start = tt
Trace-IsValid (step r s) = Step-IsValid s (Trace-IsValid r)
Trace-IsValid (requeue r s) = Requeue-IsValid s (Trace-IsValid r)
