-- ===== src/Orchestration/Refusals.antt =====
-- Runs that the budget refuses (backend/app/services/orchestration.py, `run_stage`).
use wes.Base.{
  ℕ, map, ◌/◌, ◌⊎◌, Bool, true, false, Option, some, List, [], ◌≡◌, refl, ◌∙◌, sym, ap, subst, inl,
  inr, Bool-cases, Text, ok, err, Result, find, bind_returns, bind_known,
}
use wes.Platform.Float.{Float, FloatOps}
use wes.Platform.State.{AiProvider, PlatformDb, Reason}
use wes.Platform.Budget.{BudgetDecision, or_default_config, daily_spend, monthly_spend}
use wes.Platform.Caps.{Fits, check-allowed}
use wes.Orchestration.State.{
  OrchestrationDb, AiEmployee, WorkItem, ConversationThread, ExecutionRun, Message, RunStatus,
  budget_limit, run_key, employee_key,
}
use wes.Orchestration.Prompt.{build}
use wes.Orchestration.Threads.{thread_for, next_seq, short_term}
use wes.Orchestration.Runs.{
  World, Started, gate, decided, block, cost_of, tokens_of, estimate_tokens, or_zero, failed_run,
}
use wes.Orchestration.Stage.{
  add_run, new_run, opened, started, open_run, prompt, begin, run_stage, resolve, asked_name,
  is_asked, item_of, as_message,
}
use wes.Orchestration.Gate.{Quiet, thread_for-Quiet, gate-check}
use wes.Orchestration.Ends.{HasRun, HasRun-add_run, find_written, thread_for-Returns}

-- The run was refused: it returns its key, no provider was called, and its row has failed by the
-- budget.
abbrev pub Stopped : ℕ → List ℕ → Result ℕ × OrchestrationDb → Type 0
Stopped id calls x =
    (x.0 ≡ ok id)
    × (x.1.calls ≡ calls)
    × (r : ExecutionRun) × (find run_key id x.1.runs ≡ some r)
    × (r.status ≡ RunStatus.failed)
    × (why : Option Reason) × (r.error ≡ some (budget_limit why))

module _ (ops : FloatOps) (w : World) where
  -- The cost that `run_stage` estimates, for the provider and the messages of its prompt.
  abbrev pub estimated_cost : AiProvider → List Message → Float
  estimated_cost p messages =
      or_zero (w.estimate p (estimate_tokens messages) (estimate_tokens messages / 2))

  abbrev pub prompt_in :
      AiEmployee → Option WorkItem → Result ConversationThread × OrchestrationDb → List Message
  prompt_in e item (ok thread, s) =
      build w.dash (w.context e item) (map as_message (short_term thread.id 10 s))
  prompt_in e item (err _, s) = []

  -- The messages of the run's prompt, from the thread that it finds or opens.
  abbrev pub prompt_of : AiEmployee → Option WorkItem → AiProvider → OrchestrationDb → List Message
  prompt_of e item p s = prompt_in e item (thread_for w.thread_id e item p.id s)

  -- The hard stop is on, and the estimates for these messages do not fit the limits.
  abbrev pub IsRefused : AiProvider → List Message → PlatformDb → Type 0
  IsRefused p messages s =
      ((or_default_config s.budget).hard_stop ≡ true)
      × (¬ (
          Fits ops (or_default_config s.budget) (daily_spend ops w.today s)
            (monthly_spend ops w.today s) (estimated_cost p messages) (estimate_tokens messages)))

  not_allowed :
      (st : Started) (s : PlatformDb) (d : BudgetDecision)
      → IsRefused st.primary st.request.messages s
      → ((d.allowed ≡ true)
          → ((or_default_config s.budget).hard_stop ≡ false)
            ⊎ Fits ops
                (or_default_config s.budget)
                (daily_spend ops w.today s)
                (monthly_spend ops w.today s)
                (cost_of ops w st)
                (tokens_of ops w st))
      → d.allowed ≡ false
  not_allowed st s d x h = elim (Bool-cases d.allowed) [
    | inl e ↦ elim (h e) [
      | inl off ↦ let on = x.0 in absurd (let b : true ≡ false = sym on ∙ off in cc)
      | inr fits ↦ absurd (x.1 fits)
    ]
    | inr e ↦ e
  ]

  block-Stopped :
      (st : Started) (d : BudgetDecision) (s : OrchestrationDb)
      → HasRun w.run_id s.runs
      → Stopped w.run_id s.calls (block ops w st d s)
  unfolding block
  block-Stopped st d s (r, h) = (
    refl,
    refl,
    failed_run w.now (some (budget_limit d.reason)) r,
    find_written w.run_id (failed_run w.now (some (budget_limit d.reason))) s.runs r (λ x. refl) h,
    refl,
    d.reason,
    refl,
  )

  gate-Stopped :
      (st : Started) (s : OrchestrationDb)
      → IsRefused st.primary st.request.messages s.platform
      → HasRun w.run_id s.runs
      → Stopped w.run_id s.calls (gate ops w st s)
  gate-Stopped st s x h =
      let (d, c, i) =
        check-allowed ops w.today (cost_of ops w st) (tokens_of ops w st) s.platform in
      let q = record s.platform { budget = some (or_default_config s.platform.budget) } in
      let no : d.allowed ≡ false = not_allowed st s.platform d x i.0 in
      let e : gate ops w st s ≡ block ops w st d (record s { platform = q }) =
        subst (λ b. gate ops w st s ≡ decided ops w b st d (record s { platform = q })) no
          (gate-check ops w st s d q c) in
      subst (Stopped w.run_id s.calls) (sym e) (block-Stopped st d (record s { platform = q }) h)

  begin-Stopped :
      (explicit : Bool) (e : AiEmployee) (item : Option WorkItem) (p : AiProvider)
      (s : OrchestrationDb)
      → IsRefused p (prompt_of e item p s) s.platform
      → Stopped w.run_id s.calls (begin ops w explicit e item p s)
  unfolding begin prompt open_run
  begin-Stopped explicit e item p s x =
      bind_returns (Stopped w.run_id s.calls) (thread_for w.thread_id e item p.id)
        (prompt ops w explicit e item p) s (thread_for-Returns w.thread_id e item p.id s)
        (λ thread t q.
          let messages =
            build w.dash (w.context e item) (map as_message (short_term thread.id 10 t)) in
          let quiet : Quiet s t =
            subst (λ (y : Result ConversationThread × OrchestrationDb). Quiet s y.1) q
              (thread_for-Quiet w.thread_id e item p.id s) in
          let refused : IsRefused p messages t.platform =
            subst (λ l. IsRefused p l t.platform) (ap (prompt_in e item) q)
              (subst (IsRefused p (prompt_of e item p s)) (sym quiet.1) x) in
          subst
            (λ (calls : List ℕ).
              Stopped w.run_id calls (open_run ops w explicit e item p thread messages t))
            quiet.0
            (gate-Stopped
              (started explicit e item p thread messages
                (next_seq thread.id (add_run (new_run w thread e item p) t)))
              (opened w e item p thread messages t) refused
              (HasRun-add_run w.run_id (new_run w thread e item p) t refl)))

  -- For an employee that exists and a provider that is resolved: if the hard stop is on and the
  -- run's own estimates, of the tokens of its prompt and of their cost at that provider, do not fit
  -- the limits that are set, then run_stage returns the key of its run with no call of a provider,
  -- and the row of that run has failed by the budget.
  pub run_stage-Stopped :
      (employee_id : ℕ) (work_item_id : Option ℕ) (provider_name : Option Text)
      (s : OrchestrationDb) (e : AiEmployee) (p : AiProvider)
      → find employee_key employee_id s.employees ≡ some e
      → resolve e (asked_name provider_name) s ≡ (ok p, s)
      → IsRefused p (prompt_of e (item_of work_item_id s) p s) s.platform
      → Stopped w.run_id s.calls (run_stage ops w employee_id work_item_id provider_name s)
  unfolding run_stage
  run_stage-Stopped employee_id work_item_id name s e p h r x =
      rw (run_stage, h)
        (bind_known (Stopped w.run_id s.calls) (resolve e (asked_name name))
          (begin ops w (is_asked name) e (item_of work_item_id s)) s p s r
          (begin-Stopped (is_asked name) e (item_of work_item_id s) p s x))
