-- ===== src/Jobs/Guards.antt =====
-- backend/app/services/job_queue.py: the three ends of an operation that a status guards.
use wes.Base.{
  ℕ, ◌≡◌, Bool, false, true, none, some, ok, err, not_found, validation, arith, find, modify,
}
use wes.Jobs.State.{JobStatus, Job, Jobs, job_id}
use wes.Jobs.Queue.{guarded}

module _ (refuse : JobStatus → Bool) (f : Job → Job) (id : ℕ) (t : Jobs) where
  pub guarded-missing : find job_id id t ≡ none → guarded refuse f id t ≡ (err not_found, t)
  unfolding guarded
  guarded-missing e = ground arith

  module _ (j : Job) (found : find job_id id t ≡ some j) where
    pub guarded-refused : refuse j.status ≡ true → guarded refuse f id t ≡ (err validation, t)
    unfolding guarded
    guarded-refused b = ground arith

    pub guarded-accepted :
        refuse j.status ≡ false → guarded refuse f id t ≡ (ok (f j), modify job_id id f t)
    unfolding guarded
    guarded-accepted b = ground arith
