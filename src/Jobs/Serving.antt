-- ===== src/Jobs/Serving.antt =====
-- With no other worker in between, `claim_next` serves the candidate it selected, and serves nothing
-- only when no job is due (backend/app/services/job_queue.py).
use wes.Base.{
  Differs, UniqueKeys, ℕ, ◌≡◌, refl, inl, inr, Bool, true, false, none, some, [], ◌∷◌, All, Text,
  keep, length, update_where, find, arith, Bool-cases, Option-cases, ◌==◌, ◌⊎◌,
}
use wes.Jobs.State.{Job, Jobs, job_id, is_queued}
use wes.Jobs.Row.{claim, is_due}
use wes.Jobs.Queue.{select_candidate, still_queued, claim_candidate, claim_next}
use wes.Jobs.Claims.{first_ordered-All, first_ordered-nil, keep-All}

-- The primary key names one row.
abbrev pub UniqueIds : Jobs → Type 0
UniqueIds = UniqueKeys job_id

abbrev IsRow : Jobs → Job → Type 0
IsRow t c = find job_id c.id t ≡ some c

found_in_tail :
    (j : Job) (t s : Jobs) → All (Differs job_id j.id) s → All (IsRow t) s → All (IsRow (j ∷ t)) s
found_in_tail j t [] d f = tt
found_in_tail j t (r ∷ s) d f = (ground arith, found_in_tail j t s d.1 f.1)

-- Every row of a table is the one that its key finds.
pub found : (t : Jobs) → UniqueIds t → All (IsRow t) t
found [] u = tt
found (j ∷ t) u = (ground arith, found_in_tail j t t u.0 (found t u.1))

keep_sublist : (P : Job → Type 0) (p : Job → Bool) (t : Jobs) → All P t → All P (keep p t)
keep_sublist P p [] a = tt
keep_sublist P p (j ∷ t) a = elim (Bool-cases (p j)) [
  | inl e ↦ rw (e, All) (a.0, keep_sublist P p t a.1)
  | inr e ↦ rw e (keep_sublist P p t a.1)
]

keep-others : (c : Job) (t : Jobs) → All (Differs job_id c.id) t → keep (still_queued c) t ≡ []
keep-others c [] d = refl
keep-others c (r ∷ t) d = ground (arith, keep-others c t d.1)

count-found :
    (c : Job) (t : Jobs)
    → UniqueIds t
    → is_queued c.status ≡ true
    → IsRow t c
    → length (keep (still_queued c) t) ≡ 1
count-found c [] u q f = cc
count-found c (j ∷ t) u q f = elim (Bool-cases (j.id == c.id)) [
  | inl e ↦ ground (arith, keep-others j t u.0)
  | inr e ↦ ground (arith, count-found c t u.1 q)
]

find-claimed :
    (w : Text) (now : ℕ) (c : Job) (t : Jobs)
    → is_queued c.status ≡ true
    → IsRow t c
    → find job_id c.id (update_where (still_queued c) (claim w now c.started_at) t)
      ≡ some (claim w now c.started_at c)
unfolding claim
find-claimed w now c [] q f = cc
find-claimed w now c (j ∷ t) q f = elim (Bool-cases (j.id == c.id)) [
  | inl e ↦ let same : j ≡ c = ground arith in rw (same) (ground arith)
  | inr e ↦ ground (arith, find-claimed w now c t q)
]

All-of_empty : (p : Job → Bool) (t : Jobs) → keep p t ≡ [] → All (λ k. p k ≡ false) t
All-of_empty p [] e = tt
All-of_empty p (j ∷ t) e = elim (Bool-cases (p j)) [
  | inl b ↦ cc (rw b at e)
  | inr b ↦ (b, All-of_empty p t (rw b at e))
]

is_due-queued : (now : ℕ) (c : Job) → is_due now c ≡ true → is_queued c.status ≡ true
is_due-queued now c h = ground arith

claim_found :
    (w : Text) (now : ℕ) (c : Job) (t : Jobs)
    → UniqueIds t
    → is_queued c.status ≡ true
    → IsRow t c
    → (claim_candidate w now c t).0 ≡ some (claim w now c.started_at c)
unfolding claim_candidate
claim_found w now c t u q f = rw (count-found c t u q f, find-claimed w now c t q f)

select_candidate-none :
    (now : ℕ) (t : Jobs) → select_candidate now t ≡ none → All (λ k. is_due now k ≡ false) t
unfolding select_candidate
select_candidate-none now t e =
    All-of_empty (is_due now) t (first_ordered-nil (keep (is_due now) t) e)

pub select_candidate-All :
    (P : Job → Type 0) (now : ℕ) (t : Jobs) (c : Job)
    → All P t
    → select_candidate now t ≡ some c
    → (is_due now c ≡ true) × P c
unfolding select_candidate
select_candidate-All P now t c a e = (
  first_ordered-All (λ j. is_due now j ≡ true) (keep (is_due now) t) c (keep-All (is_due now) t) e,
  first_ordered-All P (keep (is_due now) t) c (keep_sublist P (is_due now) t a) e,
)

-- Where primary keys are unique: the job that `claim_next` returns is the candidate it selected,
-- claimed; and it returns none, changing nothing, only if no row is queued and due.
pub claim_next_serves :
    (w : Text) (now : ℕ) (t : Jobs)
    → UniqueIds t
    → ((c : Job) × (select_candidate now t ≡ some c)
        × ((claim_next w now t).0 ≡ some (claim w now c.started_at c)))
      ⊎ ((claim_next w now t ≡ (none, t)) × All (λ k. is_due now k ≡ false) t)
unfolding claim_next
claim_next_serves w now t u = elim (Option-cases (select_candidate now t)) [
  | inl e ↦ inr (ground arith, select_candidate-none now t e)
  | inr (c, e) ↦
      let (due, here) = select_candidate-All (IsRow t) now t c (found t u) e in
      inl (c, e, ground (arith, claim_found w now c t u (is_due-queued now c due) here))
]
