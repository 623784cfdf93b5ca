-- ===== src/Orchestration/Requests.antt =====
-- The bounds on the calls of `run_stage`.
use wes.Base.{
  ℕ, suc, ◌+◌, ◌*◌, length-append, Option-cases, inl, inr, validation, ◌≤◌, Bool, true, false,
  Option, none, some, List, [], ◌∷◌, ◌≡◌, refl, ap, arith, length, length-keep, keep, All, Text,
  Action, Moves, bind-Moves, or_raise, Error, ◌>>=◌, find, not_found, is_nonempty,
}
use wes.Platform.Float.{FloatOps}
use wes.Platform.State.{AiProvider, PlatformDb}
use wes.Platform.Providers.{
  get_by_name, provider_for_employee, default_provider, or_default, role_provider,
}
use wes.Platform.Usage.{insert, sort, is_other, chain}
use wes.Orchestration.State.{OrchestrationDb, AiEmployee, WorkItem, employee_key, role_row_key}
use wes.Orchestration.Runs.{World, chain_of}
use wes.Orchestration.Stage.{
  begin, run_stage, run_item, code_of_role, resolve, asked_name, is_asked, item_of,
}
use wes.Orchestration.Calls.{Asks}
use wes.Orchestration.Failover.{Calm, begin-Asked}

length-insert : (p : AiProvider) (qs : List AiProvider) → length (insert p qs) ≡ suc (length qs)
length-insert p [] = refl
length-insert p (q ∷ qs) = ground (arith, length-insert p qs)

length-sort : (ps : List AiProvider) → length (sort ps) ≡ length ps
unfolding sort
length-sort [] = refl
length-sort (p ∷ ps) = ground (arith, length-insert p (sort ps), length-sort ps)

length-chain_of :
    (explicit : Bool) (p : AiProvider) (s : OrchestrationDb)
    → length (chain_of explicit p s) ≤ suc (length s.platform.providers)
unfolding chain
length-chain_of true p s = omega arith
length-chain_of false p s = omega (
  arith,
  length-sort (keep (is_other p) s.platform.providers),
  length-keep (is_other p) s.platform.providers,
)

abbrev Any : ℕ → Type 0
Any x = Unit

All-Any : (ps : List AiProvider) → All (λ (q : AiProvider). Any q.id) ps
All-Any [] = tt
All-Any (p ∷ ps) = (tt, All-Any ps)

-- At most two calls for each provider, and two more.
abbrev pub FewCalls : OrchestrationDb → OrchestrationDb → Type 0
FewCalls s t = length t.calls ≤ length s.calls + 2 * suc (length s.platform.providers)

few :
    (n : ℕ) (s t : OrchestrationDb)
    → n ≤ 2 * suc (length s.platform.providers)
    → Asks Any n s t
    → FewCalls s t
few n s t h (xs, e, l, a) = rw e (omega (arith, h, l, length-append s.calls xs))

begin-FewCalls :
    (ops : FloatOps) (w : World) (explicit : Bool) (e : AiEmployee) (item : Option WorkItem)
    (p : AiProvider)
    → Moves FewCalls (begin ops w explicit e item p)
begin-FewCalls ops w explicit e item p s =
    few (2 * length (chain_of explicit p s)) s (begin ops w explicit e item p s).1
      (omega (arith, length-chain_of explicit p s))
      (begin-Asked ops w Any explicit e item p s (All-Any (chain_of explicit p s)))

few_then :
    {A B : Type 0} (m : Action OrchestrationDb A) (k : A → Action OrchestrationDb B)
    → Moves Calm m
    → ((a : A) → Moves FewCalls (k a))
    → Moves FewCalls (m >>= k)
few_then =
    bind-Moves Calm FewCalls FewCalls (λ s t c. rw (c.0) (omega arith))
      (λ s t u c h. omega (arith, h, ap length c.0, ap length c.1))

or_raise-Calm : {A : Type 0} (o : Option A) (e : Error) → Moves Calm (or_raise o e)
or_raise-Calm none e s = (refl, refl)
or_raise-Calm (some a) e s = (refl, refl)

pub or_default_state : (o : Option AiProvider) (s : PlatformDb) → (or_default o s).1 ≡ s
or_default_state (some p) s = refl
or_default_state none s = elim (Option-cases (default_provider s)) [
  | inl e ↦ ground arith
  | inr (p, e) ↦ ground arith
]

resolve-Calm : (e : AiEmployee) (name : Option Text) → Moves Calm (resolve e name)
unfolding provider_for_employee
resolve-Calm e none s = (
  refl,
  ap (λ (p : PlatformDb). p.providers)
      (or_default_state
        (role_provider (code_of_role (find role_row_key e.role_id s.roles)) s.platform) s.platform),
)
resolve-Calm e (some name) s = or_raise-Calm (get_by_name name s.platform) validation s

-- Whatever its arguments, and however the providers answer, `run_stage` calls `execute` at most
-- twice for each provider of the table, and twice more: the attempts on a chain of the primary and
-- the enabled others end.
pub run_stage-FewCalls :
    (ops : FloatOps) (w : World) (employee_id : ℕ) (work_item_id : Option ℕ)
    (provider_name : Option Text)
    → Moves FewCalls (run_stage ops w employee_id work_item_id provider_name)
unfolding run_stage
run_stage-FewCalls ops w employee_id work_item_id name s =
    few_then (or_raise (find employee_key employee_id s.employees) not_found)
      (run_item ops w work_item_id name)
      (or_raise-Calm (find employee_key employee_id s.employees) not_found)
      (λ e t.
        few_then (resolve e (asked_name name))
          (begin ops w (is_asked name) e (item_of work_item_id t))
          (resolve-Calm e (asked_name name))
          (begin-FewCalls ops w (is_asked name) e (item_of work_item_id t)) t)
      s

run_stage_asked :
    (ops : FloatOps) (w : World) (employee_id : ℕ) (work_item_id : Option ℕ) (name : Text)
    (s : OrchestrationDb) (e : AiEmployee) (p : AiProvider)
    → find employee_key employee_id s.employees ≡ some e
    → get_by_name name s.platform ≡ some p
    → is_nonempty name ≡ true
    → run_stage ops w employee_id work_item_id (some name) s
      ≡ begin ops w true e (item_of work_item_id s) p s
unfolding run_stage
run_stage_asked ops w employee_id work_item_id [] s e p h k n = cc
run_stage_asked ops w employee_id work_item_id (c ∷ name) s e p h k n = ground arith

-- A run for which a provider is asked for by its name calls `execute` at most twice, and only on
-- that provider: there is no failover to another.
pub run_stage-strict :
    (ops : FloatOps) (w : World) (employee_id : ℕ) (work_item_id : Option ℕ) (name : Text)
    (s : OrchestrationDb) (e : AiEmployee) (p : AiProvider)
    → find employee_key employee_id s.employees ≡ some e
    → get_by_name name s.platform ≡ some p
    → is_nonempty name ≡ true
    → Asks (λ x. x ≡ p.id) 2 s (run_stage ops w employee_id work_item_id (some name) s).1
run_stage-strict ops w employee_id work_item_id name s e p h k n =
    rw (run_stage_asked ops w employee_id work_item_id name s e p h k n)
      (begin-Asked ops w (λ x. x ≡ p.id) true e (item_of work_item_id s) p s (refl, tt))
