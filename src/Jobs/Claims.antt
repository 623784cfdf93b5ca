-- ===== src/Jobs/Claims.antt =====
-- Which job `claim_next` serves, and that a lost race claims nothing
-- (backend/app/services/job_queue.py).
use wes.Base.{
  ℕ, ◌≡◌, refl, subst, inl, inr, Bool, true, false, none, some, [], ◌∷◌, All, All-weaken, Text,
  keep, update_where, arith, Bool-cases, Option-cases,
}
use wes.Jobs.State.{Job, Jobs}
use wes.Jobs.Row.{claim, is_due}
use wes.Jobs.Queue.{precedes, first_ordered, select_candidate, still_queued, claim_candidate}

abbrev Unbeaten : Job → Job → Type 0
Unbeaten c k = precedes k c ≡ false

-- `precedes` is a strict weak order: its negation is transitive, and it is asymmetric.
precedes_trans : (j k m : Job) → Unbeaten j k → Unbeaten k m → Unbeaten j m
precedes_trans j k m h g = ground arith

precedes_asym : (j k : Job) → precedes k j ≡ true → Unbeaten k j
precedes_asym j k h = ground arith

precedes_irrefl : (j : Job) → Unbeaten j j
precedes_irrefl j = ground arith

pub first_ordered-nil : (t : Jobs) → first_ordered t ≡ none → t ≡ []
unfolding first_ordered
first_ordered-nil [] h = refl
first_ordered-nil (j ∷ t) h = ground (arith)

-- Nothing in the list precedes what `first_ordered` returns.
first_ordered-best : (t : Jobs) (c : Job) → first_ordered t ≡ some c → All (Unbeaten c) t
unfolding first_ordered
first_ordered-best [] c h = tt
first_ordered-best (j ∷ t) c h = elim (Option-cases (first_ordered t)) [
  | inl e ↦ chosen j (ground arith) (rw (first_ordered-nil t e) (precedes_irrefl j, tt))
  | inr (k, e) ↦ elim (Bool-cases (precedes k j)) [
    | inl b ↦ chosen k (ground arith) (precedes_asym j k b, first_ordered-best t k e)
    | inr b ↦ chosen j (ground arith) (
      precedes_irrefl j,
      All-weaken (Unbeaten k) (Unbeaten j) (λ m. precedes_trans j k m b) t
          (first_ordered-best t k e),
    )
  ]
]
  where
    chosen : (k : Job) → k ≡ c → All (Unbeaten k) (j ∷ t) → All (Unbeaten c) (j ∷ t)
    chosen k same a = subst (λ x. All (Unbeaten x) (j ∷ t)) same a

pub first_ordered-All :
    (P : Job → Type 0) (t : Jobs) (c : Job) → All P t → first_ordered t ≡ some c → P c
unfolding first_ordered
first_ordered-All P [] c a h = cc
first_ordered-All P (j ∷ t) c a h = elim (Option-cases (first_ordered t)) [
  | inl e ↦ let same : j ≡ c = ground arith in rw (← same) a.0
  | inr (k, e) ↦ elim (Bool-cases (precedes k j)) [
    | inl b ↦ let same : k ≡ c = ground arith in first_ordered-All P t c a.1 (rw (← same) e)
    | inr b ↦ let same : j ≡ c = ground arith in rw (← same) a.0
  ]
]

pub keep-All : (p : Job → Bool) (t : Jobs) → All (λ j. p j ≡ true) (keep p t)
keep-All p [] = tt
keep-All p (j ∷ t) = elim (Bool-cases (p j)) [
  | inl e ↦ rw (e, All) (e, keep-All p t)
  | inr e ↦ rw e (keep-All p t)
]

-- The candidate of `claim_next` is queued and due, and no row that is queued and due has a higher
-- priority, or the same priority and an earlier creation.
pub select_candidate-best :
    (now : ℕ) (t : Jobs) (c : Job)
    → select_candidate now t ≡ some c
    → (is_due now c ≡ true) × All (λ k. precedes k c ≡ false) (keep (is_due now) t)
unfolding select_candidate
select_candidate-best now t c h = (
  first_ordered-All (λ j. is_due now j ≡ true) (keep (is_due now) t) c (keep-All (is_due now) t) h,
  first_ordered-best (keep (is_due now) t) c h,
)

keep-claimed :
    (w : Text) (now : ℕ) (c d : Job) (t : Jobs)
    → d.id ≡ c.id
    → keep (still_queued d) (update_where (still_queued c) (claim w now c.started_at) t) ≡ []
unfolding claim
keep-claimed w now c d [] e = refl
keep-claimed w now c d (r ∷ t) e = ground (arith, keep-claimed w now c d t e)

update-claimed :
    (w : Text) (now : ℕ) (c d : Job) (f : Job → Job) (t : Jobs)
    → d.id ≡ c.id
    → let u = update_where (still_queued c) (claim w now c.started_at) t in
      update_where (still_queued d) f u ≡ u
unfolding claim
update-claimed w now c d f [] e = refl
update-claimed w now c d f (r ∷ t) e = ground (arith, update-claimed w now c d f t e)

-- Two workers that selected the same row: the one whose guarded UPDATE runs second gets no job and
-- leaves the table as the first one left it.
pub claim_candidate-race :
    (w v : Text) (now later : ℕ) (c d : Job) (t : Jobs)
    → d.id ≡ c.id
    → let u = (claim_candidate w now c t).1 in claim_candidate v later d u ≡ (none, u)
unfolding claim_candidate
claim_candidate-race w v now later c d t e =
    rw (keep-claimed w now c d t e, update-claimed w now c d (claim v later d.started_at) t e)
