-- ===== src/Orchestration/Stored.antt =====
-- The failover writes no message and no run; and it returns, unless a provider's adapter raises an
-- exception of another kind.
use wes.Base.{
  ℕ, zero, suc, Bool, true, false, Option, none, some, List, [], ◌∷◌, ◌≢◌, refl, Text, Action,
  Keeps, bind-Keeps, Returns, bind-Returns,
}
use wes.Platform.State.{AiProvider}
use wes.Platform.Usage.{ExecutionResult}
use wes.Orchestration.State.{OrchestrationDb, ExecutionMessage, ExecutionRun}
use wes.Orchestration.Attempts.{
  Answer, answered, rate_limited, refused, crashed, Request, Outcome, contact, settle, attempts,
  max_attempts, note_call, note_rate_limit, note_error, execute_with_retry, announce, choose,
  try_chain,
}

-- The messages and the runs.
abbrev pub stored : OrchestrationDb → List ExecutionMessage × List ExecutionRun
stored s = (s.messages, s.runs)

-- An adapter returns a result or raises a ProviderError.
abbrev pub NeverCrashes : (List ℕ → AiProvider → Request → Answer) → Type 0
NeverCrashes execute = (past : List ℕ) (p : AiProvider) (r : Request) → execute past p r ≢ crashed

module _ (execute : List ℕ → AiProvider → Request → Answer) (actor : Text) (run_id : ℕ)
    (request : Request) where
  settle-Keeps :
      (p : AiProvider) (attempt : ℕ)
      (again : Text → Action OrchestrationDb (Outcome ExecutionResult))
      → ((error : Text) → Keeps stored (again error))
      → (answer : Answer)
      → Keeps stored (settle execute actor run_id request p attempt again answer)
  unfolding settle
  settle-Keeps p attempt again h (answered r) s = refl
  settle-Keeps p attempt again h (rate_limited error) s =
      h error (note_rate_limit execute actor run_id request p attempt error s)
  settle-Keeps p attempt again h (refused error) s = refl
  settle-Keeps p attempt again h crashed s = refl

  attempts-Keeps :
      (p : AiProvider) (left attempt : ℕ) (last : Option Text)
      → Keeps stored (attempts execute actor run_id request p left attempt last)
  unfolding attempts contact
  attempts-Keeps p zero attempt last s = refl
  attempts-Keeps p (suc left) attempt last s =
      let again =
        λ (error : Text). attempts execute actor run_id request p left (suc attempt) (some error) in
      bind-Keeps stored (contact execute actor run_id request p)
        (settle execute actor run_id request p attempt again) (λ t. refl)
        (settle-Keeps p attempt again (λ error. attempts-Keeps p left (suc attempt) (some error))) s

  choose-Keeps :
      (primary : AiProvider) (is_first : Bool) (p : AiProvider)
      (next : Option Text → Action OrchestrationDb (Outcome (AiProvider × ExecutionResult)))
      → ((error : Option Text) → Keeps stored (next error))
      → (outcome : Outcome ExecutionResult)
      → Keeps stored (choose execute actor run_id request primary is_first p next outcome)
  unfolding choose announce
  choose-Keeps primary true p next h (some r, error) s = refl
  choose-Keeps primary false p next h (some r, error) s = refl
  choose-Keeps primary is_first p next h (none, error) s =
      h error (note_error execute actor run_id request p error s)

  pub try_chain-Keeps :
      (primary : AiProvider) (is_first : Bool) (ps : List AiProvider) (last : Option Text)
      → Keeps stored (try_chain execute actor run_id request primary is_first ps last)
  unfolding try_chain execute_with_retry
  try_chain-Keeps primary is_first [] last s = refl
  try_chain-Keeps primary is_first (p ∷ ps) last s =
      bind-Keeps stored (attempts execute actor run_id request p max_attempts 1 none)
        (choose execute actor run_id request primary is_first p
          (try_chain execute actor run_id request primary false ps))
        (attempts-Keeps p max_attempts 1 none)
        (choose-Keeps primary is_first p (try_chain execute actor run_id request primary false ps)
          (λ error. try_chain-Keeps primary false ps error))
        s

  settle-Returns :
      (p : AiProvider) (attempt : ℕ)
      (again : Text → Action OrchestrationDb (Outcome ExecutionResult))
      → ((error : Text) → Returns (again error))
      → (answer : Answer) → answer ≢ crashed
      → Returns (settle execute actor run_id request p attempt again answer)
  unfolding settle
  settle-Returns p attempt again h (answered r) n s = refl
  settle-Returns p attempt again h (rate_limited error) n s =
      h error (note_rate_limit execute actor run_id request p attempt error s)
  settle-Returns p attempt again h (refused error) n s = refl
  settle-Returns p attempt again h crashed n s = absurd (n refl)

  module _ (calm : NeverCrashes execute) where
    attempts-Returns :
        (p : AiProvider) (left attempt : ℕ) (last : Option Text)
        → Returns (attempts execute actor run_id request p left attempt last)
    unfolding attempts contact
    attempts-Returns p zero attempt last s = refl
    attempts-Returns p (suc left) attempt last s =
        let again = λ (error : Text).
          attempts execute actor run_id request p left (suc attempt) (some error) in
        settle-Returns p attempt again (λ error. attempts-Returns p left (suc attempt) (some error))
          (execute s.calls p request) (calm s.calls p request) (note_call p s)

    choose-Returns :
        (primary : AiProvider) (is_first : Bool) (p : AiProvider)
        (next : Option Text → Action OrchestrationDb (Outcome (AiProvider × ExecutionResult)))
        → ((error : Option Text) → Returns (next error))
        → (outcome : Outcome ExecutionResult)
        → Returns (choose execute actor run_id request primary is_first p next outcome)
    unfolding choose announce
    choose-Returns primary true p next h (some r, error) s = refl
    choose-Returns primary false p next h (some r, error) s = refl
    choose-Returns primary is_first p next h (none, error) s =
        h error (note_error execute actor run_id request p error s)

    pub try_chain-Returns :
        (primary : AiProvider) (is_first : Bool) (ps : List AiProvider) (last : Option Text)
        → Returns (try_chain execute actor run_id request primary is_first ps last)
    unfolding try_chain execute_with_retry
    try_chain-Returns primary is_first [] last s = refl
    try_chain-Returns primary is_first (p ∷ ps) last s =
        bind-Returns (attempts execute actor run_id request p max_attempts 1 none)
          (choose execute actor run_id request primary is_first p
            (try_chain execute actor run_id request primary false ps))
          (attempts-Returns p max_attempts 1 none)
          (choose-Returns primary is_first p
            (try_chain execute actor run_id request primary false ps)
            (λ error. try_chain-Returns primary false ps error))
          s
