-- ===== src/Orchestration/Ends.antt =====
-- Every run ends: it is completed or failed when `run_stage` returns.
use wes.Base.{
  map, Returns, ==_iff, first-append, find-append, find-append, ◌==◌, ℕ, Bool, true, false, Option,
  none, some, is_some, List, [], ◌∷◌, ◌≡◌, ◌⊎◌, inl, inr, refl, ◌∙◌, sym, ap, subst, Text, Result,
  ok, is_ok, bind_returns, find, modify, find-modify_self, first, Option-cases,
}
use mathlib.Core.Option
use wes.Platform.Float.{FloatOps}
use wes.Platform.State.{AiProvider}
use wes.Platform.Usage.{ExecutionResult}
use wes.Platform.Budget.{BudgetDecision, or_default_config}
use wes.Platform.Caps.{check-allowed}
use wes.Orchestration.State.{
  OrchestrationDb, AiEmployee, WorkItem, ConversationThread, ExecutionRun, completed, failed,
  budget_limit, run_key, employee_key,
}
use wes.Orchestration.Prompt.{build}
use wes.Orchestration.Attempts.{Outcome, try_chain}
use wes.Orchestration.Threads.{
  thread_for, use_thread, new_thread, fits_thread, next_seq, short_term,
}
use wes.Orchestration.Runs.{
  World, Started, chain_of, block, fail, succeed, finish, conclude, execute_chain, proceed, decided,
  gate, cost_of, tokens_of, failed_run, completed_run, as_error,
}
use wes.Orchestration.Stage.{
  add_run, new_run, opened, started, open_run, prompt, begin, run_stage, resolve, asked_name,
  is_asked, item_of, as_message,
}
use wes.Orchestration.Gate.{gate-check}
use wes.Orchestration.Stored.{stored, NeverCrashes, try_chain-Keeps, try_chain-Returns}

-- Completed with an output, or failed; and at some time.
abbrev pub IsOver : ExecutionRun → Type 0
IsOver r =
    ((r.status ≡ completed) × (is_some r.output ≡ true) ⊎ (r.status ≡ failed))
    × (is_some r.completed_at ≡ true)

abbrev pub HasRun : ℕ → List ExecutionRun → Type 0
HasRun id runs = (r : ExecutionRun) × (find run_key id runs ≡ some r)

-- The action returns the run's key, and its row is over.
abbrev pub Ended : ℕ → Result ℕ × OrchestrationDb → Type 0
Ended id x = (x.0 ≡ ok id) × (r : ExecutionRun) × (find run_key id x.1.runs ≡ some r) × IsOver r

pub find_written :
    (id : ℕ) (f : ExecutionRun → ExecutionRun) (runs : List ExecutionRun) (r : ExecutionRun)
    → ((x : ExecutionRun) → (f x).id ≡ x.id)
    → find run_key id runs ≡ some r
    → find run_key id (modify run_key id f runs) ≡ some (f r)
find_written id f runs r same h = find-modify_self run_key f same id runs ∙ ap (Option.map f) h

use_thread-Returns :
    (fresh : ConversationThread) (found : Option ConversationThread)
    → Returns (use_thread fresh found)
use_thread-Returns fresh none s = refl
use_thread-Returns fresh (some t) s = refl

pub thread_for-Returns :
    (id : ℕ) (e : AiEmployee) (item : Option WorkItem) (provider_id : ℕ)
    → Returns (thread_for id e item provider_id)
unfolding thread_for
thread_for-Returns id e item provider_id s =
    use_thread-Returns (new_thread id e item provider_id) (first (fits_thread e item) s.threads) s

pub HasRun-add_run :
    (id : ℕ) (run : ExecutionRun) (s : OrchestrationDb)
    → run.id ≡ id
    → HasRun id (add_run run s).runs
HasRun-add_run id run s e = elim (Option-cases (find run_key id s.runs)) [
  | inl n ↦ (
    run,
    let q : (run.id == id) ≡ true = (==_iff run.id id).1 e in
        find-append run_key id s.runs run ∙ rw (n, q) refl,
  )
  | inr (r, h) ↦ (r, first-append (λ x. run_key x == id) s.runs (run ∷ []) r h)
]

module _ (ops : FloatOps) (w : World) where
  conclude-Ended :
      (st : Started) (o : Outcome (AiProvider × ExecutionResult)) (s : OrchestrationDb)
      → HasRun w.run_id s.runs
      → Ended w.run_id (conclude ops w st o s)
  unfolding conclude finish succeed fail
  conclude-Ended st (some (p, result), last) s (r, h) = (
    refl,
    completed_run ops w p result r,
    find_written w.run_id (completed_run ops w p result) s.runs r (λ x. refl) h,
    (inl (refl, refl), refl),
  )
  conclude-Ended st (none, last) s (r, h) = (
    refl,
    failed_run w.now (as_error last) r,
    find_written w.run_id (failed_run w.now (as_error last)) s.runs r (λ x. refl) h,
    (inr refl, refl),
  )

  HasRun-kept :
      (s t : OrchestrationDb)
      → stored t ≡ stored s
      → HasRun w.run_id s.runs
      → HasRun w.run_id t.runs
  HasRun-kept s t e (r, h) = (r, ap (find run_key w.run_id) (ap (λ x. x.1) e) ∙ h)

  module _ (calm : NeverCrashes w.execute) where
    execute_chain-Ended :
        (st : Started) (ps : List AiProvider) (s : OrchestrationDb)
        → HasRun w.run_id s.runs
        → Ended w.run_id (execute_chain ops w st ps s)
    unfolding execute_chain
    execute_chain-Ended st ps s h =
        let m = try_chain w.execute w.actor w.run_id st.request st.primary true ps none in
        let kept =
          try_chain-Keeps w.execute w.actor w.run_id st.request st.primary true ps none s in
        bind_returns (Ended w.run_id) m (conclude ops w st) s
          (try_chain-Returns w.execute w.actor w.run_id st.request calm st.primary true ps none s)
          (λ o t e. conclude-Ended st o t (
            HasRun-kept s t
              (sym (
                  ap
                    (λ (x : Result (Outcome (AiProvider × ExecutionResult)) × OrchestrationDb).
                      stored x.1)
                    e)
                ∙ kept)
              h))

    decided-Ended :
        (b : Bool) (st : Started) (d : BudgetDecision) (s : OrchestrationDb)
        → HasRun w.run_id s.runs
        → Ended w.run_id (decided ops w b st d s)
    unfolding proceed block
    decided-Ended true st d s h = execute_chain-Ended st (chain_of st.explicit st.primary s) s h
    decided-Ended false st d s (r, h) = (
      refl,
      failed_run w.now (some (budget_limit d.reason)) r,
      find_written w.run_id (failed_run w.now (some (budget_limit d.reason))) s.runs r (λ x. refl)
          h,
      (inr refl, refl),
    )

    gate-Ended :
        (st : Started) (s : OrchestrationDb)
        → HasRun w.run_id s.runs
        → Ended w.run_id (gate ops w st s)
    gate-Ended st s h =
        let (d, c, _) =
          check-allowed ops w.today (cost_of ops w st) (tokens_of ops w st) s.platform in
        let p = record s.platform { budget = some (or_default_config s.platform.budget) } in
        subst (Ended w.run_id) (sym (gate-check ops w st s d p c))
          (decided-Ended d.allowed st d (record s { platform = p }) h)

    begin-Ended :
        (explicit : Bool) (e : AiEmployee) (item : Option WorkItem) (p : AiProvider)
        (s : OrchestrationDb)
        → Ended w.run_id (begin ops w explicit e item p s)
    unfolding begin prompt open_run
    begin-Ended explicit e item p s =
        bind_returns (Ended w.run_id) (thread_for w.thread_id e item p.id)
          (prompt ops w explicit e item p) s (thread_for-Returns w.thread_id e item p.id s)
          (λ thread t q.
            let messages =
              build w.dash (w.context e item) (map as_message (short_term thread.id 10 t)) in
            gate-Ended
              (started explicit e item p thread messages
                (next_seq thread.id (add_run (new_run w thread e item p) t)))
              (opened w e item p thread messages t)
              (HasRun-add_run w.run_id (new_run w thread e item p) t refl))

    -- For an employee that exists, and a provider that the name or the role or the default gives,
    -- if the adapters raise nothing but ProviderErrors: `run_stage` returns the run's key, and the
    -- run's row is completed, with an output, or failed, and has its time of completion.
    pub run_stage-Ended :
        (employee_id : ℕ) (work_item_id : Option ℕ) (provider_name : Option Text)
        (s : OrchestrationDb) (e : AiEmployee)
        → find employee_key employee_id s.employees ≡ some e
        → is_ok (resolve e (asked_name provider_name) s).0 ≡ true
        → Ended w.run_id (run_stage ops w employee_id work_item_id provider_name s)
    unfolding run_stage
    run_stage-Ended employee_id work_item_id name s e h r =
        rw (run_stage, h)
          (bind_returns (Ended w.run_id) (resolve e (asked_name name))
            (begin ops w (is_asked name) e (item_of work_item_id s)) s r
            (λ p t q. begin-Ended (is_asked name) e (item_of work_item_id s) p t))
