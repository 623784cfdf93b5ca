-- ===== src/Jobs/Worker.antt =====
-- backend/app/services/job_worker.py: `run_once`. A handler enters as a function: it is given the
-- claimed job and the committed table, and either returns its result (as JSON text) with the table
-- of its session, or raises, which leaves the table of its last commit.
use Prim.Native.Char.{code}
use Prim.Native.String.{String}
use mathlib.Core.Option
use wes.Base.{
  ℕ, ◌≡◌, refl, inl, inr, Bool, true, false, Option, none, some, [], ◌∷◌, ◌++◌, Text, find, arith,
  Option-cases, find-modify_self, modify, ◌⊎◌,
}
use wes.Jobs.State.{Job, Jobs, job_id, is_running}
use wes.Jobs.Row.{complete, fail}
use wes.Jobs.Queue.{claim_next, complete_job, fail_job}

pub data Outcome : Type 0 where
  returned : Text → Jobs → Outcome
  raised : Text → Jobs → Outcome

-- `JOB_HANDLERS`
abbrev pub Handlers : Type 0
Handlers = Text → Option (Job → Jobs → Outcome)

abbrev codes : String → Text
codes String.[] = []
codes (String.◌∷◌ c s) = code c ∷ codes s

abbrev no_handler : Text → Text
no_handler job_type =
    codes "RuntimeError: no handler registered for job_type '" ++ (job_type ++ codes "'")

-- The `except` branch: the row is read afresh, and failed if it is still there.
abbrev record_failure : ℕ → ℕ → Text → Jobs → Jobs
record_failure id now error t = elim (find job_id id t) [
  | none ↦ t
  | some _ ↦ fail_job id now error t
]

abbrev settle : ℕ → ℕ → Outcome → Jobs
settle id now (returned result t) = complete_job id now result t
settle id now (raised error t) = record_failure id now error t

run_handler : Handlers → Job → Jobs → Outcome
run_handler handlers job t = elim (handlers job.job_type) [
  | none ↦ raised (no_handler job.job_type) t
  | some h ↦ h job t
]

-- `now` is the time of the claim and `later` that of the end. A session that is closed with no
-- commit leaves the table as it was.
unfoldable pub run_once : Handlers → Text → ℕ → ℕ → Jobs → Bool × Jobs
unfolding run_handler
run_once handlers worker now later t =
    let (claimed, t') = claim_next worker now t in
    elim claimed [
      | none ↦ (false, t)
      | some job ↦ (true, settle job.id later (run_handler handlers job t'))
    ]

abbrev pub Settled : Option Job → Type 0
Settled none = Unit
Settled (some j) = is_running j.status ≡ false

modify-Settled :
    (f : Job → Job)
    → ((r : Job) → (f r).id ≡ r.id)
    → ((r : Job) → is_running (f r).status ≡ false)
    → (id : ℕ) (t : Jobs) → Settled (find job_id id (modify job_id id f t))
modify-Settled f same stopped id t =
    rw (find-modify_self job_id f same id t)
      (elim (find job_id id t) as (λ o. Settled (Option.map f o)) [
        | none ↦ tt
        | some r ↦ stopped r
      ])

complete_job-Settled :
    (id now : ℕ) (r : Text) (t : Jobs) → Settled (find job_id id (complete_job id now r t))
unfolding complete_job complete
complete_job-Settled id now r t = modify-Settled (complete now r) (λ j. refl) (λ j. refl) id t

fail_job-Settled :
    (id now : ℕ) (e : Text) (t : Jobs) → Settled (find job_id id (fail_job id now e t))
unfolding fail_job fail
fail_job-Settled id now e t =
    modify-Settled (fail now e) (λ j. ground arith) (λ j. ground arith) id t

settle-Settled : (id now : ℕ) (o : Outcome) → Settled (find job_id id (settle id now o))
settle-Settled id now (returned result t) = complete_job-Settled id now result t
settle-Settled id now (raised error t) = elim (Option-cases (find job_id id t)) [
  | inl e ↦ rw (e, record_failure) (rw e tt)
  | inr (j, e) ↦ rw (e, record_failure) (fail_job-Settled id now error t)
]

run_once-claimed :
    (handlers : Handlers) (worker : Text) (now later : ℕ) (t : Jobs) (j : Job)
    → (claim_next worker now t).0 ≡ some j
    → run_once handlers worker now later t
      ≡ (true, settle j.id later (run_handler handlers j (claim_next worker now t).1))
unfolding run_once
run_once-claimed handlers worker now later t j e = ground arith

run_once-idle :
    (handlers : Handlers) (worker : Text) (now later : ℕ) (t : Jobs)
    → (claim_next worker now t).0 ≡ none
    → run_once handlers worker now later t ≡ (false, t)
unfolding run_once
run_once-idle handlers worker now later t e = ground arith

-- Whatever the handler does, `run_once` leaves the job that it claimed not running; and with no job
-- claimed it reports false and changes nothing.
pub run_once_settles :
    (handlers : Handlers) (worker : Text) (now later : ℕ) (t : Jobs)
    → let (handled, u) = run_once handlers worker now later t in
      ((handled ≡ false) × (u ≡ t))
      ⊎ ((handled ≡ true)
          × (j : Job) × ((claim_next worker now t).0 ≡ some j)
          × Settled (find job_id j.id u))
run_once_settles handlers worker now later t = elim (Option-cases (claim_next worker now t).0) [
  | inl e ↦ rw (run_once-idle handlers worker now later t e) (inl (refl, refl))
  | inr (j, e) ↦ rw (run_once-claimed handlers worker now later t j e) (
      inr (
        refl,
        j,
        e,
        settle-Settled j.id later (run_handler handlers j (claim_next worker now t).1),
      ))
]
