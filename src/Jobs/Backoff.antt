-- ===== src/Jobs/Backoff.antt =====
-- The wait before a retry, and a cancellation that the worker overwrites
-- (backend/app/services/job_queue.py, `fail`, `cancel`, `complete`).
use Prim.Native.Nat.{min}
use wes.Base.{
  ℕ, if◌then◌else◌, zero, suc, ◌+◌, ltb, ◌≤◌, ◌<◌, ◌≡◌, refl, true, false, some, ok, [], ◌∷◌, All,
  Text, find, modify, arith, ◌==◌, find-modify_self, inl, inr, Bool-cases,
}
use wes.Jobs.State.{Job, Jobs, job_id, is_terminal, failed, queued, running, completed}
use wes.Jobs.Row.{fail, cancel, complete, backoff, is_due}
use wes.Jobs.Queue.{select_candidate, fail_job, complete_job, cancel_job}
use wes.Jobs.Guards.{guarded-accepted}
use wes.Jobs.Serving.{UniqueIds, select_candidate-All}

min-four : (n : ℕ) → min (suc (suc (suc (suc n)))) 4 ≡ 4
min-four n = omega arith

backoff_lem :
    (a : ℕ)
    → backoff a ≡ (
        if a == 0
        then 0
        else if a == 1
        then 5
        else if a == 2
        then 15
        else if a == 3
        then 60
        else 300)
unfolding backoff
backoff_lem zero = refl
backoff_lem (suc zero) = refl
backoff_lem (suc (suc zero)) = refl
backoff_lem (suc (suc (suc zero))) = refl
backoff_lem (suc (suc (suc (suc n)))) = rw (min-four n) (ground arith)

-- From the first attempt on a retry waits 5 seconds at least and 300 at most, and a later attempt
-- never waits less than an earlier one.
pub backoff_bounds :
    (a b : ℕ) → 1 ≤ a → a ≤ b → (5 ≤ backoff a) × (backoff a ≤ backoff b) × (backoff b ≤ 300)
backoff_bounds a b h g = ground (arith, backoff_lem a, backoff_lem b)

fail-not_due :
    (now later : ℕ) (e : Text) (j : Job)
    → later < now + backoff j.attempts
    → is_due later (fail now e j) ≡ false
unfolding fail
fail-not_due now later e j h = ground arith

abbrev Rests : ℕ → ℕ → Job → Type 0
Rests id later r = (r.id == id) ≡ true → is_due later r ≡ false

rest_of_others :
    (id later : ℕ) (x : Job) (t : Jobs)
    → x.id ≡ id
    → All (λ r. (r.id == x.id) ≡ false) t
    → All (Rests id later) t
rest_of_others id later x [] e d = tt
rest_of_others id later x (r ∷ t) e d = (ground arith, rest_of_others id later x t e d.1)

fail_job-Rests :
    (id now later : ℕ) (e : Text) (t : Jobs) (j : Job)
    → UniqueIds t
    → find job_id id t ≡ some j
    → later < now + backoff j.attempts
    → All (Rests id later) (fail_job id now e t)
unfolding fail_job
fail_job-Rests id now later e [] j u f h = cc
fail_job-Rests id now later e (x ∷ t) j u f h = elim (Bool-cases (x.id == id)) [
  | inl b ↦
      rw (b, All)
        (ground (arith, fail-not_due now later e x), rest_of_others id later x t (ground arith) u.0)
  | inr b ↦ rw (b, All) (ground arith, fail_job-Rests id now later e t j u.1 (ground arith) h)
]

-- Where primary keys are unique: in the table that fail leaves directly after it, no selection at a
-- time before the backoff of the failed job has passed returns that job.
pub fail_job-rests :
    (id now later : ℕ) (e : Text) (t : Jobs) (j c : Job)
    → UniqueIds t
    → find job_id id t ≡ some j
    → later < now + backoff j.attempts
    → select_candidate later (fail_job id now e t) ≡ some c
    → (c.id == id) ≡ false
fail_job-rests id now later e t j c u f h s =
    let (due, rests) =
      select_candidate-All (Rests id later) later (fail_job id now e t) c
        (fail_job-Rests id now later e t j u f h) s in
    ground (arith, rests)

cancel_running :
    (id now : ℕ) (t : Jobs) (j : Job)
    → find job_id id t ≡ some j
    → j.status ≡ running
    → cancel_job id now t ≡ (ok (cancel now j), modify job_id id (cancel now) t)
unfolding cancel_job
cancel_running id now t j f s = guarded-accepted is_terminal (cancel now) id t j f (rw s)

find_rewritten :
    (f g : Job → Job) (id : ℕ) (t : Jobs) (j : Job)
    → find job_id id t ≡ some j
    → ((r : Job) → (f r).id ≡ r.id)
    → ((r : Job) → (g r).id ≡ r.id)
    → find job_id id (modify job_id id g (modify job_id id f t)) ≡ some (g (f j))
find_rewritten f g id t j h same same' = rw (
  find-modify_self job_id g same' id (modify job_id id f t),
  find-modify_self job_id f same id t,
  h,
)

-- A running job can be cancelled while its worker goes on. When the worker then completes it, the
-- cancelled job is completed; when the worker fails it, it is queued again if it has attempts left
-- and failed otherwise.
pub cancel_overwritten :
    (id now later : ℕ) (result error : Text) (t : Jobs) (j : Job)
    → find job_id id t ≡ some j
    → j.status ≡ running
    → let (r, u) = cancel_job id now t in
      (r ≡ ok (cancel now j))
      × (find job_id id (complete_job id later result u)
          ≡ some (complete later result (cancel now j)))
      × (find job_id id (fail_job id later error u) ≡ some (fail later error (cancel now j)))
      × ((complete later result (cancel now j)).status ≡ completed)
      × ((fail later error (cancel now j)).status
          ≡ (if ltb j.attempts j.max_attempts then queued else failed))
unfolding cancel complete fail complete_job fail_job
cancel_overwritten id now later result error t j f s = rw (cancel_running id now t j f s) (
  refl,
  find_rewritten (cancel now) (complete later result) id t j f (λ r. refl) (λ r. refl),
  find_rewritten (cancel now) (fail later error) id t j f (λ r. refl) (λ r. ground arith),
  refl,
  ground arith,
)
