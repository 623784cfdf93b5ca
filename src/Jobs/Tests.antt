-- ===== src/Jobs/Tests.antt =====
-- Runs of the job queue, and its theorems at concrete tables.
use wes.Base.{
  ◌≤◌, pos, ◌≡◌, refl, ◌⊎◌, true, false, none, some, ok, [], ◌∷◌, All, Text, arith, find, keep, ltb,
  if◌then◌else◌, ◌==◌,
}
use wes.Jobs.State.{Job, Jobs, job_id, queued, completed, failed}
use wes.Jobs.Row.{claim, complete, fail, cancel, backoff, is_due}
use wes.Jobs.Queue.{
  enqueue, new_job, precedes, select_candidate, claim_candidate, claim_next, cancel_job,
  complete_job, fail_job, retry_job,
}
use wes.Jobs.Valid.{IsValid}
use wes.Jobs.Reach.{Trace, start, step, requeue, by_enqueue, by_claim, by_retry, Trace-IsValid}
use wes.Jobs.Attempts.{WithinGrants, attempts_bounded}
use wes.Jobs.Claims.{select_candidate-best, claim_candidate-race}
use wes.Jobs.Serving.{claim_next_serves}
use wes.Jobs.Idempotency.{enqueue_twice}
use wes.Jobs.Backoff.{backoff_bounds, fail_job-rests, cancel_overwritten}
use wes.Jobs.Worker.{Handlers, returned, run_once, Settled, run_once_settles}

abbrev low : Job
low = new_job 1 10 (1 ∷ []) [] 3 (pos 0) none

abbrev high : Job
high = new_job 2 11 (1 ∷ []) [] 1 (pos 5) (some (7 ∷ []))

abbrev table : Jobs
table = low ∷ high ∷ []

abbrev worker : Text
worker = 119 ∷ []

-- The higher priority goes first, though it came later.
claims_high : (claim_next worker 20 table).0 ≡ some (claim worker 20 none high)
unfolding claim_next claim
claims_high = refl

abbrev busy : Jobs
busy = claim worker 20 none low ∷ high ∷ []

-- One attempt allowed, one made: the failure is final.
fails_for_good : (fail 30 [] (claim worker 20 none high)).status ≡ failed
unfolding fail claim
fails_for_good = refl

abbrev enqueued_one : Jobs
enqueued_one = (enqueue 1 10 (1 ∷ []) [] 3 (pos 0) none []).1

Trace-one : Trace 0 (claim_next worker 20 enqueued_one).1
Trace-one =
    step (step start (by_enqueue 1 10 (1 ∷ []) [] 3 (pos 0) none refl)) (by_claim worker 20 refl)

Trace-retried : Trace 1 (retry_job 1 40 (claim_next worker 20 enqueued_one).1).1
Trace-retried = requeue Trace-one (by_retry 1 40 refl)

Trace-IsValid_example : All IsValid (claim_next worker 20 enqueued_one).1
Trace-IsValid_example = Trace-IsValid Trace-one

attempts_bounded_example :
    All (WithinGrants 1) (retry_job 1 40 (claim_next worker 20 enqueued_one).1).1
attempts_bounded_example = attempts_bounded Trace-retried

select_candidate-best_example :
    (is_due 20 high ≡ true) × All (λ k. precedes k high ≡ false) (keep (is_due 20) table)
unfolding select_candidate
select_candidate-best_example = select_candidate-best 20 table high refl

claim_candidate-race_example :
    let u = (claim_candidate worker 20 high table).1 in
    claim_candidate (118 ∷ []) 21 high u ≡ (none, u)
claim_candidate-race_example = claim_candidate-race worker (118 ∷ []) 20 21 high high table refl

claim_next_serves_example :
    ((c : Job) × (select_candidate 20 table ≡ some c)
      × ((claim_next worker 20 table).0 ≡ some (claim worker 20 c.started_at c)))
    ⊎ ((claim_next worker 20 table ≡ (none, table)) × All (λ k. is_due 20 k ≡ false) table)
claim_next_serves_example = claim_next_serves worker 20 table (ground arith)

enqueue_twice_example :
    let (r, u) = enqueue 3 12 [] [] 3 (pos 0) (some (7 ∷ [])) table in
    enqueue 4 13 [] [] 2 (pos 1) (some (7 ∷ [])) u ≡ (r, u)
enqueue_twice_example = enqueue_twice (7 ∷ []) refl table 3 12 4 13 [] [] [] [] 3 2 (pos 0) (pos 1)

backoff_bounds_example : (5 ≤ backoff 1) × (backoff 1 ≤ backoff 3) × (backoff 3 ≤ 300)
backoff_bounds_example = backoff_bounds 1 3 (omega arith) (omega arith)

-- After the failure of job 1 at 30, only job 2 is selected at 31.
fail_job-rests_example : (2 == 1) ≡ false
unfolding fail_job fail claim select_candidate backoff
fail_job-rests_example =
    fail_job-rests 1 30 31 [] busy (claim worker 20 none low) high (ground arith) refl (omega arith)
      refl

cancel_overwritten_example :
    let j : Job = claim worker 20 none low in
    let (r, u) = cancel_job 1 30 busy in
    (r ≡ ok (cancel 30 j))
    × (find job_id 1 (complete_job 1 31 [] u) ≡ some (complete 31 [] (cancel 30 j)))
    × (find job_id 1 (fail_job 1 31 [] u) ≡ some (fail 31 [] (cancel 30 j)))
    × ((complete 31 [] (cancel 30 j)).status ≡ completed)
    × ((fail 31 [] (cancel 30 j)).status
        ≡ (if ltb j.attempts j.max_attempts then queued else failed))
unfolding claim
cancel_overwritten_example =
    cancel_overwritten 1 30 31 [] [] busy (claim worker 20 none low) refl refl

abbrev echo : Handlers
echo job_type = some (λ j t. returned j.payload t)

runs_high : (run_once echo worker 20 25 table).0 ≡ true
unfolding run_once claim_next claim
runs_high = refl

run_once_settles_example :
    let (handled, u) = run_once echo worker 20 25 table in
    ((handled ≡ false) × (u ≡ table))
    ⊎ ((handled ≡ true)
        × (j : Job) × ((claim_next worker 20 table).0 ≡ some j)
        × Settled (find job_id j.id u))
run_once_settles_example = run_once_settles echo worker 20 25 table
