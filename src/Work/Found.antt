-- ===== src/Work/Found.antt =====
-- What the tests of backend/app/services/work.py find.
use wes.Base.{
  ℕ, Bool, true, false, Option, none, some, is_some, if◌then◌else◌, List, [], ◌∷◌, ==_refl, ◌≡◌,
  sym, subst, arith, inl, inr, Bool-cases, some_inj, Result, first, find,
}
use wes.Work.State.{Worker, WorkDb, worker_key, milestone_key, sprint_key}
use wes.Work.Tasks.{find_worker, active_worker, is_missing, refs_missing}
use wes.Work.Links.{Has, Refers, IsLinked}

pub found-Has :
    {A : Type 0} (key : A → ℕ) (p : A → Bool) (t : List A) (r : A)
    → first p t ≡ some r
    → Has key t (key r)
found-Has key p [] r h = cc
found-Has key p (x ∷ t) r h = elim (Bool-cases (p x)) [
  | inl e ↦
      let same : x ≡ r = some_inj x r (rw e at h) in
      subst (λ y. Has key (x ∷ t) (key y)) same (rw (==_refl (key x)))
  | inr e ↦ let rest = found-Has key p t r (rw e at h) in ground (arith, rest)
]

active-Has :
    (id : ℕ) (t : List Worker) → is_some (first (active_worker id) t) ≡ true → Has worker_key t id
active-Has id [] h = h
active-Has id (w ∷ t) h = let rest = active-Has id t in ground (arith, rest)

pub some-Has :
    {A : Type 0} (key : A → ℕ) (t : List A) (id : ℕ) (r : A) → find key id t ≡ some r → Has key t id
some-Has key t id r e = rw e

pub missing-Refers :
    {A : Type 0} (key : A → ℕ) (t : List A) (r : Option ℕ)
    → is_missing r (λ id. find key id t) ≡ false
    → Refers key t r
missing-Refers key t none h = tt
missing-Refers key t (some id) h = ground (arith, h)

pub worker-Refers :
    (s : WorkDb) (r : Option ℕ)
    → is_missing r (λ id. find_worker id s) ≡ false
    → Refers worker_key s.workers r
worker-Refers s none h = tt
worker-Refers s (some id) h = active-Has id s.workers (ground (arith, h))

-- The four references that were tested.
abbrev pub RefsFound : Option ℕ → Option ℕ → Option ℕ → Option ℕ → WorkDb → Type 0
RefsFound sprint milestone worker checker s =
    Refers sprint_key s.sprints sprint
    × Refers milestone_key s.milestones milestone
    × Refers worker_key s.workers worker
    × Refers worker_key s.workers checker

either_false : (b c : Bool) → (if b then true else c) ≡ false → (b ≡ false) × (c ≡ false)
either_false b c h = ground (arith, h)

pub refs_missing-RefsFound :
    (sprint milestone worker checker : Option ℕ) (s : WorkDb)
    → refs_missing sprint milestone worker checker s ≡ false
    → RefsFound sprint milestone worker checker s
refs_missing-RefsFound sprint milestone worker checker s h =
    let a = either_false (is_missing sprint (λ id. find sprint_key id s.sprints)) _ h in
    let b = either_false (is_missing milestone (λ id. find milestone_key id s.milestones)) _ a.1 in
    let c = either_false (is_missing worker (λ id. find_worker id s)) _ b.1 in
    (
      missing-Refers sprint_key s.sprints sprint a.0,
      missing-Refers milestone_key s.milestones milestone b.0,
      worker-Refers s worker c.0,
      worker-Refers s checker c.1,
    )

pub ends_with : (x y : Result (Unit {0}) × WorkDb) → x ≡ y → IsLinked y.1 → IsLinked x.1
ends_with x y e h = subst (λ z. IsLinked z.1) (sym e) h
