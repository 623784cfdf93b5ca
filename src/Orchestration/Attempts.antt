-- ===== src/Orchestration/Attempts.antt =====
-- backend/app/services/orchestration.py: the attempts on one provider, and the failover to the
-- next one of the chain.
use wes.Base.{
  ℕ, zero, suc, Bool, true, false, Option, none, some, List, [], ◌∷◌, ◌++◌, Text, codes, Action,
  pure, raise, gets, modify_state, ◌>>=◌, ◌>>◌, raised,
}
use wes.Platform.State.{AiProvider, EventType, Detail, Severity, PlatformDb}
use wes.Platform.Providers.{record_event}
use wes.Platform.Usage.{ExecutionResult, record_latency, record_error}
use wes.Orchestration.State.{OrchestrationDb, RetryStatus, Message}

-- `MAX_ATTEMPTS`
abbrev pub max_attempts : ℕ
max_attempts = 2

-- What `instance_for(candidate)` and `execute(request)` do: they return a result, raise a
-- RateLimitError or another ProviderError with its text, or raise another exception.
pub data Answer : Type 0 where
  answered : ExecutionResult → Answer
  rate_limited refused : Text → Answer
  crashed : Answer

pub record Request : Type 0 where
  pub messages : List Message
  pub model : Option Text

abbrev pub on_platform : (PlatformDb → PlatformDb) → OrchestrationDb → OrchestrationDb
on_platform f s = record s { platform = f s.platform }

abbrev pub add_retry : ℕ → ℕ → RetryStatus → Option Text → OrchestrationDb → OrchestrationDb
add_retry run_id attempt status error s = record s {
  retries =
      s.retries
      ++ record { run_id = run_id; attempt = attempt; status = status; error = error } ∷ [];
}

-- `notify_founder`
abbrev pub notify_founder : Text → ℕ → Detail → PlatformDb → PlatformDb
notify_founder actor provider_id detail =
    record_event actor provider_id EventType.founder_notified detail Severity.warning

-- A result, or none, and the last error.
abbrev pub Outcome : Type 0 → Type 0
Outcome A = Option A × Option Text

-- `last_error or "execution failed"`
abbrev pub error_text : Option Text → Text
error_text none = codes "execution failed"
error_text (some []) = codes "execution failed"
error_text (some (c ∷ t)) = c ∷ t

abbrev pub note_call : AiProvider → OrchestrationDb → OrchestrationDb
note_call p s = record s { calls = s.calls ++ p.id ∷ [] }

-- The providers may answer by what they were asked before.
module _ (execute : List ℕ → AiProvider → Request → Answer) (actor : Text) (run_id : ℕ)
    (request : Request) where
  unfoldable pub contact : AiProvider → Action OrchestrationDb Answer
  contact p = do
    past ← gets (λ s. s.calls)
    modify_state (note_call p)
    pure (execute past p request)

  abbrev pub note_rate_limit : AiProvider → ℕ → Text → OrchestrationDb → OrchestrationDb
  note_rate_limit p attempt error s =
      on_platform
        (record_event actor p.id EventType.rate_limited (Detail.message (some error))
          Severity.warning)
        (add_retry run_id attempt RetryStatus.rate_limited (some error) s)

  abbrev pub note_error : AiProvider → Option Text → OrchestrationDb → OrchestrationDb
  note_error p error = on_platform (record_error p.id (error_text error) (some run_id))

  -- The body of the loop after the call; `again` is the rest of the loop.
  unfoldable pub settle :
      AiProvider
      → ℕ
      → (Text → Action OrchestrationDb (Outcome ExecutionResult))
      → Answer
      → Action OrchestrationDb (Outcome ExecutionResult)
  settle p attempt again (answered r) = do
    modify_state (add_retry run_id attempt RetryStatus.succeeded none)
    modify_state (on_platform (record_latency p.id r.latency_ms (some run_id)))
    pure (some r, none)
  settle p attempt again (rate_limited error) = do
    modify_state (note_rate_limit p attempt error)
    again error
  settle p attempt again (refused error) = do
    modify_state (add_retry run_id attempt RetryStatus.failed (some error))
    pure (none, some error)
  settle p attempt again crashed = raise raised

  -- The loop: `left` attempts are left, the next one is number `attempt`.
  unfoldable pub attempts :
      AiProvider → ℕ → ℕ → Option Text → Action OrchestrationDb (Outcome ExecutionResult)
  attempts p zero attempt last = pure (none, last)
  attempts p (suc left) attempt last =
      contact p >>= settle p attempt (λ error. attempts p left (suc attempt) (some error))

  -- `_execute_with_retry`
  unfoldable pub execute_with_retry : AiProvider → Action OrchestrationDb (Outcome ExecutionResult)
  execute_with_retry p = attempts p max_attempts 1 none

  -- The events of a failover from the primary to the provider that answered.
  unfoldable pub announce : AiProvider → Bool → AiProvider → Action OrchestrationDb (Unit {0})
  announce primary true p = pure tt
  announce primary false p = do
    modify_state (
        on_platform (
          record_event actor p.id EventType.failover_switched
            (Detail.failed_over primary.name p.name) Severity.warning))
    modify_state
        (on_platform (notify_founder actor primary.id (Detail.failed_over primary.name p.name)))

  -- What the loop does with the outcome of one provider; `next` is the rest of the chain.
  unfoldable pub choose :
      AiProvider
      → Bool
      → AiProvider
      → (Option Text → Action OrchestrationDb (Outcome (AiProvider × ExecutionResult)))
      → Outcome ExecutionResult
      → Action OrchestrationDb (Outcome (AiProvider × ExecutionResult))
  choose primary is_first p next (some r, error) = do
    announce primary is_first p
    pure (some (p, r), error)
  choose primary is_first p next (none, error) = do modify_state (note_error p error); next error

  -- The loop over the chain; `is_first` holds for the first provider.
  unfoldable pub try_chain :
      AiProvider
      → Bool
      → List AiProvider
      → Option Text
      → Action OrchestrationDb (Outcome (AiProvider × ExecutionResult))
  try_chain primary is_first [] last = pure (none, last)
  try_chain primary is_first (p ∷ ps) last =
      execute_with_retry p >>= choose primary is_first p (try_chain primary false ps)
