-- ===== src/Orchestration/Answers.antt =====
-- Which provider of a chain gives the result.
use wes.Base.{
  ℕ, zero, suc, Bool, true, false, Option, none, some, List, [], ◌∷◌, ◌≡◌, ◌≢◌, refl, ◌∙◌, sym,
  subst, Text, Action, ok, bind_value,
}
use wes.Platform.State.{AiProvider}
use wes.Platform.Usage.{ExecutionResult}
use wes.Orchestration.State.{OrchestrationDb}
use wes.Orchestration.Attempts.{
  Answer, answered, rate_limited, refused, crashed, Request, Outcome, contact, note_call, settle,
  attempts, max_attempts, note_rate_limit, note_error, execute_with_retry, announce, choose,
  try_chain,
}

-- The result of a provider that answers the same on every call.
abbrev pub result_of : Answer → Option ExecutionResult
result_of (answered r) = some r
result_of _ = none

abbrev pub pick :
    AiProvider
    → Option ExecutionResult
    → Option (AiProvider × ExecutionResult)
    → Option (AiProvider × ExecutionResult)
pick p (some r) rest = some (p, r)
pick p none rest = rest

-- The first provider of the chain that has a result, and the result.
abbrev pub first_answer :
    (AiProvider → Answer) → List AiProvider → Option (AiProvider × ExecutionResult)
first_answer f [] = none
first_answer f (p ∷ ps) = pick p (result_of (f p)) (first_answer f ps)

-- The action returns, and the result of its outcome is `o`.
abbrev pub Gives : {A : Type 0} → Option A → Action OrchestrationDb (Outcome A) → Type 0
Gives o m = (s : OrchestrationDb) → (last : Option Text) × ((m s).0 ≡ ok (o, last))

module _ (execute : List ℕ → AiProvider → Request → Answer) (actor : Text) (run_id : ℕ)
    (request : Request) where
  abbrev Steady : (AiProvider → Answer) → Type 0
  Steady f = (past : List ℕ) (p : AiProvider) → (execute past p request ≡ f p) × (f p ≢ crashed)

  settle-Gives :
      (p : AiProvider) (attempt : ℕ)
      (again : Text → Action OrchestrationDb (Outcome ExecutionResult)) (answer : Answer)
      → answer ≢ crashed
      → ((error : Text) → answer ≡ rate_limited error → Gives none (again error))
      → Gives (result_of answer) (settle execute actor run_id request p attempt again answer)
  unfolding settle
  settle-Gives p attempt again (answered r) n h s = (none, refl)
  settle-Gives p attempt again (rate_limited error) n h s =
      h error refl (note_rate_limit execute actor run_id request p attempt error s)
  settle-Gives p attempt again (refused error) n h s = (some error, refl)
  settle-Gives p attempt again crashed n h s = absurd (n refl)

  module _ (f : AiProvider → Answer) (steady : Steady f) where
    attempts_none :
        (p : AiProvider) (left attempt : ℕ) (last : Option Text) (error : Text)
        → f p ≡ rate_limited error
        → Gives none (attempts execute actor run_id request p left attempt last)
    unfolding attempts contact settle
    attempts_none p zero attempt last error e s = (last, refl)
    attempts_none p (suc left) attempt last error e s =
        let again =
          λ (t : Text). attempts execute actor run_id request p left (suc attempt) (some t) in
        let a = execute s.calls p request in
        let same : rate_limited error ≡ a = sym (e) ∙ sym ((steady s.calls p).0) in
        subst (λ (x : Answer). Gives none (settle execute actor run_id request p attempt again x))
          same
          (λ t.
            attempts_none p left (suc attempt) (some error) error e
              (note_rate_limit execute actor run_id request p attempt error t))
          (note_call p s)

    attempts-Gives :
        (p : AiProvider) (left attempt : ℕ) (last : Option Text)
        → Gives (result_of (f p)) (attempts execute actor run_id request p (suc left) attempt last)
    unfolding attempts contact
    attempts-Gives p left attempt last s =
        let again =
          λ (t : Text). attempts execute actor run_id request p left (suc attempt) (some t) in
        subst
          (λ (x : Answer).
            Gives (result_of (f p)) (settle execute actor run_id request p attempt again x))
          (sym ((steady s.calls p).0))
          (settle-Gives p attempt again (f p) (steady s.calls p).1
            (λ error e. attempts_none p left (suc attempt) (some error) error e))
          (note_call p s)

    choose-Gives :
        (primary : AiProvider) (is_first : Bool) (p : AiProvider)
        (rest : Option (AiProvider × ExecutionResult))
        (next : Option Text → Action OrchestrationDb (Outcome (AiProvider × ExecutionResult)))
        → ((error : Option Text) → Gives rest (next error))
        → (result : Option ExecutionResult) (last : Option Text)
        → Gives
            (pick p result rest)
            (choose execute actor run_id request primary is_first p next (result, last))
    unfolding choose announce
    choose-Gives primary true p rest next h (some r) last s = (last, refl)
    choose-Gives primary false p rest next h (some r) last s = (last, refl)
    choose-Gives primary is_first p rest next h none last s =
        h last (note_error execute actor run_id request p last s)

    -- If each provider gives the same answer to every call of a request, and none raises an exception
    -- of another kind: the loop over a chain returns, with the first provider of the chain that has a
    -- result, and this result; and with none if no provider of the chain has one.
    pub try_chain-first_answer :
        (primary : AiProvider) (is_first : Bool) (ps : List AiProvider) (last : Option Text)
        → Gives
            (first_answer f ps)
            (try_chain execute actor run_id request primary is_first ps last)
    unfolding try_chain execute_with_retry
    try_chain-first_answer primary is_first [] last s = (last, refl)
    try_chain-first_answer primary is_first (p ∷ ps) last s =
        let m = attempts execute actor run_id request p max_attempts 1 none in
        let next = try_chain execute actor run_id request primary false ps in
        let (l, e) = attempts-Gives p 1 1 none s in
        bind_value (λ x. (last' : Option Text) × (x.0 ≡ ok (first_answer f (p ∷ ps), last'))) m
          (choose execute actor run_id request primary is_first p next) s (result_of (f p), l) e
          (choose-Gives primary is_first p (first_answer f ps) next
            (λ error. try_chain-first_answer primary false ps error) (result_of (f p)) l)
