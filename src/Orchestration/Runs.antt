-- ===== src/Orchestration/Runs.antt =====
-- backend/app/services/orchestration.py: `run_stage`, `run_workflow` and `review_run`.
use wes.Base.{
  ℕ, false, ◌+◌, ◌/◌, Bool, true, Option, none, some, List, [], ◌∷◌, ◌++◌, length, Text, Action,
  pure, gets, modify_state, ◌>>=◌, ◌>>◌, modify,
}
use wes.Platform.Float.{Float, FloatOps, float_zero}
use wes.Platform.State.{AiProvider, EventType, Detail, Severity, HealthStatus, PlatformDb}
use wes.Platform.Providers.{record_event, add_health}
use wes.Platform.Usage.{ExecutionResult, Today, record_usage, chain}
use wes.Platform.Budget.{BudgetDecision, check}
use wes.Orchestration.State.{
  OrchestrationDb, RunStatus, MessageRole, Message, AiEmployee, WorkItem, RunError, budget_limit,
  provider_error, ExecutionRun, run_key,
}
use wes.Orchestration.Prompt.{Context}
use wes.Orchestration.Attempts.{Answer, Request, Outcome, on_platform, notify_founder, try_chain}
use wes.Orchestration.Threads.{add_messages, message_row}

-- What a run takes from outside: the keys of new rows, the clock, what the context builder reads,
-- and the provider adapters: `estimate_cost` (`none` if it raises), `execute`, and `health` (`none`
-- if it raises).
pub record World : Type 0 where
  pub actor : Text
  pub run_id : ℕ
  pub thread_id : ℕ
  pub now : ℕ
  pub today : Today
  pub dash : Text
  pub context : AiEmployee → Option WorkItem → Context
  pub estimate : AiProvider → ℕ → ℕ → Option Float
  pub execute : List ℕ → AiProvider → Request → Answer
  pub health : AiProvider → Option (HealthStatus × Option Text)

-- A run that has started: its rows, and the number of the next message.
pub record Started : Type 0 where
  pub primary : AiProvider
  pub explicit : Bool
  pub employee_id : ℕ
  pub project_id : Option ℕ
  pub thread_id : ℕ
  pub seq : ℕ
  pub request : Request

abbrev pub write_run : ℕ → (ExecutionRun → ExecutionRun) → OrchestrationDb → OrchestrationDb
write_run id f s = record s { runs = modify run_key id f s.runs }

abbrev pub failed_run : ℕ → Option RunError → ExecutionRun → ExecutionRun
failed_run now error r = record r {
  status = RunStatus.failed;
  error = error;
  completed_at = some now;
}

-- `sum(len(m.content) // 4 for m in messages)`
abbrev pub estimate_tokens : List Message → ℕ
estimate_tokens [] = 0
estimate_tokens (m ∷ ms) = length m.content / 4 + estimate_tokens ms

-- `except Exception: est_cost = 0.0`
abbrev pub or_zero : Option Float → Float
or_zero none = float_zero
or_zero (some cost) = cost

-- A service of the provider platform, called with the session.
abbrev pub lift : {A : Type 0} → Action PlatformDb A → Action OrchestrationDb A
lift m s = let (r, p) = m s.platform in (r, record s { platform = p })

abbrev pub as_error : Option Text → Option RunError
as_error none = none
as_error (some t) = some (provider_error t)

-- A provider that was asked for by name has no others after it.
abbrev pub chain_of : Bool → AiProvider → OrchestrationDb → List AiProvider
chain_of true primary s = primary ∷ []
chain_of false primary s = chain primary s.platform

module _ (ops : FloatOps) (w : World) where
  -- The budget refuses the run.
  unfoldable pub block : Started → BudgetDecision → Action OrchestrationDb ℕ
  block st d = do
    modify_state (write_run w.run_id (failed_run w.now (some (budget_limit d.reason))))
    modify_state (
        on_platform (
          record_event w.actor st.primary.id EventType.budget_blocked (Detail.refused d.reason)
            Severity.warning))
    modify_state (on_platform (notify_founder w.actor st.primary.id (Detail.blocked d.reason)))
    pure w.run_id

  -- Every provider failed.
  unfoldable pub fail : Started → Option Text → Action OrchestrationDb ℕ
  fail st last = do
    modify_state (write_run w.run_id (failed_run w.now (as_error last)))
    modify_state (on_platform (notify_founder w.actor st.primary.id (Detail.all_failed last)))
    pure w.run_id

  abbrev pub completed_run : AiProvider → ExecutionResult → ExecutionRun → ExecutionRun
  completed_run p result r = record r {
    provider_id = p.id;
    model = some result.model;
    status = RunStatus.completed;
    output = some result.output;
    completed_at = some w.now;
    duration_ms = some result.latency_ms;
  }

  -- The metric, the token usage and the cost of a run that succeeded.
  abbrev pub add_figures :
      Started → AiProvider → ExecutionResult → OrchestrationDb → OrchestrationDb
  add_figures st p r s = record s {
    metrics =
        s.metrics
        ++ record {
          run_id = w.run_id;
          latency_ms = r.latency_ms;
          prompt_tokens = r.prompt_tokens;
          completion_tokens = r.completion_tokens;
          total_tokens = r.total_tokens;
        }
          ∷ [];
    token_usages =
        s.token_usages
        ++ record {
          run_id = w.run_id;
          provider_id = p.id;
          ai_employee_id = st.employee_id;
          prompt_tokens = r.prompt_tokens;
          completion_tokens = r.completion_tokens;
          total_tokens = r.total_tokens;
        }
          ∷ [];
    costs =
        s.costs
        ++ record {
          run_id = w.run_id;
          provider_id = p.id;
          tokens = r.total_tokens;
          estimated_cost = r.cost;
          currency = r.currency;
        }
          ∷ [];
  }

  unfoldable pub succeed : Started → AiProvider → ExecutionResult → Action OrchestrationDb ℕ
  succeed st p result = do
    modify_state (write_run w.run_id (completed_run p result))
    modify_state (
        add_messages (
          message_row st.thread_id w.run_id st.seq
            (record { role = MessageRole.assistant; content = result.output })
          ∷ []))
    modify_state (add_figures st p result)
    modify_state (
        on_platform (
          record_usage ops w.today p.id
            (record {
              run_id = some w.run_id;
              ai_employee_id = some st.employee_id;
              project_id = st.project_id;
            })
            result))
    pure w.run_id

  unfoldable pub finish :
      Started → Outcome (AiProvider × ExecutionResult) → Action OrchestrationDb ℕ
  finish st (some (p, result), last) = succeed st p result
  finish st (none, last) = fail st last

  abbrev pub record_health : ℕ → Option (HealthStatus × Option Text) → PlatformDb → PlatformDb
  record_health id none s = s
  record_health id (some (status, detail)) s =
      add_health (record { provider_id = id; status = status; detail = detail }) s

  -- The primary's health, and the end of the run.
  unfoldable pub conclude :
      Started → Outcome (AiProvider × ExecutionResult) → Action OrchestrationDb ℕ
  conclude st outcome = do
    modify_state (on_platform (record_health st.primary.id (w.health st.primary)))
    finish st outcome

  unfoldable pub execute_chain : Started → List AiProvider → Action OrchestrationDb ℕ
  execute_chain st ps =
      try_chain w.execute w.actor w.run_id st.request st.primary true ps none >>= conclude st

  unfoldable pub proceed : Started → Action OrchestrationDb ℕ
  proceed st = do ps ← gets (chain_of st.explicit st.primary); execute_chain st ps

  abbrev pub decided : Bool → Started → BudgetDecision → Action OrchestrationDb ℕ
  decided true st d = proceed st
  decided false st d = block st d

  abbrev pub tokens_of : Started → ℕ
  tokens_of st = estimate_tokens st.request.messages

  abbrev pub cost_of : Started → Float
  cost_of st = or_zero (w.estimate st.primary (tokens_of st) (tokens_of st / 2))

  -- The budget gate, and what follows.
  unfoldable pub gate : Started → Action OrchestrationDb ℕ
  gate st = do d ← lift (check ops w.today (cost_of st) (tokens_of st)); decided d.allowed st d
