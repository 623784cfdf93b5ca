-- ===== src/Orchestration/Gate.antt =====
-- The steps before the budget gate, and the gate from what the budget check returns.
use wes.Base.{ℕ, Option, none, some, ◌≡◌, refl, arith, Moves, ok, first}
use wes.Platform.Float.{FloatOps}
use wes.Platform.State.{PlatformDb}
use wes.Platform.Budget.{BudgetDecision, check}
use wes.Orchestration.State.{OrchestrationDb, AiEmployee, WorkItem, ConversationThread}
use wes.Orchestration.Threads.{thread_for, use_thread, new_thread, fits_thread}
use wes.Orchestration.Runs.{World, Started, gate, decided, cost_of, tokens_of}

-- The calls and the platform's tables are as they were.
abbrev pub Quiet : OrchestrationDb → OrchestrationDb → Type 0
Quiet s t = (t.calls ≡ s.calls) × (t.platform ≡ s.platform)

use_thread-Quiet :
    (fresh : ConversationThread) (found : Option ConversationThread)
    → Moves Quiet (use_thread fresh found)
use_thread-Quiet fresh none s = (refl, refl)
use_thread-Quiet fresh (some t) s = (refl, refl)

pub thread_for-Quiet :
    (id : ℕ) (e : AiEmployee) (item : Option WorkItem) (provider_id : ℕ)
    → Moves Quiet (thread_for id e item provider_id)
unfolding thread_for
thread_for-Quiet id e item provider_id s =
    use_thread-Quiet (new_thread id e item provider_id) (first (fits_thread e item) s.threads) s

module _ (ops : FloatOps) (w : World) where
  pub gate-check :
      (st : Started) (s : OrchestrationDb) (d : BudgetDecision) (p : PlatformDb)
      → check ops w.today (cost_of ops w st) (tokens_of ops w st) s.platform ≡ (ok d, p)
      → gate ops w st s ≡ decided ops w d.allowed st d (record s { platform = p })
  unfolding gate
  gate-check st s d p c = ground arith
