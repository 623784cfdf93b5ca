-- ===== src/Jobs/Idempotency.antt =====
-- Enqueueing under an idempotency key (backend/app/services/job_queue.py, `enqueue`).
use wes.Base.{
  ℕ, ℤ, ◌≡◌, inl, inr, true, none, some, ok, [], ◌∷◌, ◌++◌, Text, text_eq_iff, is_nonempty, first,
  Option-cases, arith, Result,
}
use wes.Jobs.State.{Job, Jobs}
use wes.Jobs.Queue.{has_key, existing, new_job, enqueue}

module _ (key : Text) where
  first-append_new :
      (t : Jobs) (j : Job)
      → first (has_key key) t ≡ none
      → has_key key j ≡ true
      → first (has_key key) (t ++ j ∷ []) ≡ some j
  first-append_new [] j h k = ground arith
  first-append_new (x ∷ t) j h k = ground (arith, first-append_new t j)

enqueue-existing :
    (key : Text) (id now : ℕ) (y p : Text) (m : ℕ) (q : ℤ) (before : Result Job × Jobs)
    → (j : Job) × (before.0 ≡ ok j) × (existing (some key) before.1 ≡ some j)
    → enqueue id now y p m q (some key) before.1 ≡ before
unfolding enqueue
enqueue-existing key id now y p m q before (j, r, e) = ground arith

module _ (key : Text) (present : is_nonempty key ≡ true) (t : Jobs) where
  -- The lookup finds, after an `enqueue` under the key, the job that it returned.
  existing-enqueue :
      (id now : ℕ) (job_type payload : Text) (max_attempts : ℕ) (priority : ℤ)
      → let (r, u) = enqueue id now job_type payload max_attempts priority (some key) t in
        (j : Job) × (r ≡ ok j) × (existing (some key) u ≡ some j)
  unfolding enqueue
  existing-enqueue id now y p m q = elim (Option-cases (existing (some key) t)) [
    | inl e ↦ (
      new_job id now y p m q (some key),
      ground arith,
      ground
          (arith, text_eq_iff key key, first-append_new key t (new_job id now y p m q (some key))),
    )
    | inr (j, e) ↦ (j, ground arith, ground arith)
  ]

  -- Once a job was enqueued under a non-empty key, enqueueing under that key again, whatever the
  -- other arguments, returns the same job and adds no row.
  pub enqueue_twice :
      (id now id' now' : ℕ) (y y' p p' : Text) (m m' : ℕ) (q q' : ℤ)
      → let (r, u) = enqueue id now y p m q (some key) t in
        enqueue id' now' y' p' m' q' (some key) u ≡ (r, u)
  enqueue_twice id now id' now' y y' p p' m m' q q' =
      enqueue-existing key id' now' y' p' m' q' (enqueue id now y p m q (some key) t)
        (existing-enqueue id now y p m q)
