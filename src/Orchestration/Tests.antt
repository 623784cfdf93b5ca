-- ===== src/Orchestration/Tests.antt =====
-- The theorems on orchestration at one employee, two providers and a thread of two messages.
use wes.Base.{
  ℕ, true, Option, none, some, List, [], ◌∷◌, ◌++◌, ◌≡◌, ◌⊎◌, inl, inr, Bool-cases, refl, ok,
  length, Text, is_ok, arith, if◌then◌else◌, ◌==◌,
}
use wes.Platform.State.{AiProvider, PlatformDb}
use wes.Platform.Providers.{get_by_name, provider_for_employee, default_provider, mapped_provider}
use wes.Platform.Sample.{whole, main, spare, platform, today, result}
use wes.Orchestration.State.{OrchestrationDb, AiEmployee, ExecutionMessage, MessageRole}
use wes.Orchestration.Prompt.{Context}
use wes.Orchestration.Attempts.{Answer, answered, rate_limited, Request, try_chain}
use wes.Orchestration.Threads.{thread_messages, short_term}
use wes.Orchestration.Runs.{World}
use wes.Orchestration.Stage.{run_stage, run_workflow, resolve}
use wes.Orchestration.Calls.{Asks}
use wes.Orchestration.Requests.{FewCalls, run_stage-FewCalls, run_stage-strict}
use wes.Orchestration.Refusals.{Stopped, IsRefused, prompt_of, run_stage-Stopped}
use wes.Orchestration.Numbers.{IsNumbered}
use wes.Orchestration.Memory.{short_term-IsNumbered}
use wes.Orchestration.Numbering.{run_workflow-Numbers}
use wes.Orchestration.Stored.{NeverCrashes}
use wes.Orchestration.Ends.{Ended, run_stage-Ended}
use wes.Orchestration.Answers.{try_chain-first_answer}

abbrev ada : AiEmployee
ada = record { id = 1; name = 97 ∷ []; role_id = 1 }

abbrev note : ℕ → ExecutionMessage
note n = record { thread_id = 3; run_id = 9; role = MessageRole.user; content = []; sequence = n }

abbrev office : PlatformDb → OrchestrationDb
office p = record {
  employees = ada ∷ [];
  roles = record { id = 1; code = 100 ∷ []; title = [] } ∷ [];
  work_items =
      record { id = 4; project_id = 1; task_code = []; title = []; acceptance_criteria = none }
      ∷ [];
  handoffs = record { work_item_id = 4; to_ai_employee_id = 1; sequence = 0 } ∷ [];
  threads = [];
  runs = [];
  messages = note 0 ∷ note 1 ∷ [];
  metrics = [];
  token_usages = [];
  costs = [];
  retries = [];
  platform = p;
  calls = [];
}

abbrev context : Context
context = record {
  name = 97 ∷ [];
  role = [];
  organization = [];
  responsibilities = [];
  sop = none;
  knowledge = [];
  repository = none;
  task = none;
  project_repository = [];
}

-- The main provider is limited, and the spare one answers.
abbrev answer : AiProvider → Answer
answer p = if p.id == 1 then rate_limited (116 ∷ []) else answered result

abbrev execute : List ℕ → AiProvider → Request → Answer
execute past p request = answer p

abbrev world : World
world = record {
  actor = [];
  run_id = 9;
  thread_id = 3;
  now = 0;
  today = today;
  dash = [];
  context = λ e item. context;
  estimate = λ p a b. none;
  execute = execute;
  health = λ p. none;
}

never_crashes : NeverCrashes execute
never_crashes past p r e = ground arith

run_stage-FewCalls_example :
    FewCalls (office platform) (run_stage whole world 1 (some 4) none (office platform)).1
run_stage-FewCalls_example = run_stage-FewCalls whole world 1 (some 4) none (office platform)

main_named : get_by_name (99 ∷ []) platform ≡ some main
unfolding get_by_name
main_named = refl

run_stage-strict_example :
    Asks
      (λ x. x ≡ 1)
      2
      (office platform)
      (run_stage whole world 1 none (some (99 ∷ [])) (office platform)).1
run_stage-strict_example =
    run_stage-strict whole world 1 none (99 ∷ []) (office platform) ada main refl main_named refl

-- Every run is estimated to cost 9, where the month may cost 5.
abbrev dear : World
dear = record world { estimate = λ p a b. some 9 }

main_resolved : resolve ada none (office platform) ≡ (ok main, office platform)
unfolding provider_for_employee default_provider mapped_provider
main_resolved = refl

too_dear : IsRefused whole dear main (prompt_of whole dear ada none main (office platform)) platform
too_dear = (refl, λ fits. ground (arith, fits.0))

run_stage-Stopped_example : Stopped 9 [] (run_stage whole dear 1 none none (office platform))
run_stage-Stopped_example =
    run_stage-Stopped whole dear 1 none none (office platform) ada main refl main_resolved too_dear

numbered : (p : PlatformDb) → IsNumbered (office p).messages
numbered p k = elim (Bool-cases (3 == k)) [ inl e ↦ rw e (refl, (refl, tt)) | inr e ↦ rw e tt ]

short_term-IsNumbered_example :
    (older : List ExecutionMessage) × (thread_messages 3 (office platform)
      ≡ older ++ short_term 3 1 (office platform))
    × ((length (short_term 3 1 (office platform)) ≡ 1) ⊎ (older ≡ []))
short_term-IsNumbered_example = short_term-IsNumbered 3 1 (office platform) (numbered platform)

main_chosen : is_ok (resolve ada none (office platform)).0 ≡ true
unfolding provider_for_employee default_provider mapped_provider
main_chosen = refl

run_stage-Ended_example : Ended 9 (run_stage whole world 1 (some 4) none (office platform))
run_stage-Ended_example =
    run_stage-Ended whole world never_crashes 1 (some 4) none (office platform) ada refl main_chosen

run_workflow-Numbers_example :
    IsNumbered
      (run_workflow whole (λ n. record world { run_id = n }) 4 none (office platform)).1.messages
run_workflow-Numbers_example =
    run_workflow-Numbers whole (λ n. record world { run_id = n }) 4 none (office platform)
      (numbered platform)

abbrev empty_request : Request
empty_request = record { messages = []; model = none }

try_chain-first_answer_example :
    (last : Option Text) × ((try_chain execute [] 9 empty_request main true
        (main ∷ spare ∷ [])
        none
        (office platform)).0
      ≡ ok (some (spare, result), last))
try_chain-first_answer_example =
    try_chain-first_answer execute [] 9 empty_request answer
      (λ past p. (refl, λ e. never_crashes past p empty_request e)) main true (main ∷ spare ∷ [])
      none (office platform)
