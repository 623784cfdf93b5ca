-- ===== src/Orchestration/Threads.antt =====
-- backend/app/services/orchestration.py: the thread of a run, the numbering of its messages, and
-- the short-term memory.
use wes.Base.{
  ℕ, suc, ◌+◌, Bool, true, false, ◌&&◌, Option, none, some, List, [], ◌∷◌, ◌++◌, keep, map, take,
  ltb, ◌==◌, if◌then◌else◌, Action, pure, gets, modify_state, ◌>>=◌, ◌>>◌, first,
}
use wes.Orchestration.State.{
  OrchestrationDb, ConversationThread, ExecutionMessage, AiEmployee, WorkItem, Message,
}

-- The query of `_thread_for`: without a work item, any thread of the employee passes.
abbrev pub fits_item : Option WorkItem → ConversationThread → Bool
fits_item none t = true
fits_item (some w) t = elim t.work_item_id [ none ↦ false | some id ↦ id == w.id ]

abbrev pub fits_thread : AiEmployee → Option WorkItem → ConversationThread → Bool
fits_thread e item t = t.ai_employee_id == e.id && fits_item item t

abbrev pub item_id : Option WorkItem → Option ℕ
item_id none = none
item_id (some w) = some w.id

abbrev pub new_thread : ℕ → AiEmployee → Option WorkItem → ℕ → ConversationThread
new_thread id e item provider_id = record {
  id = id;
  ai_employee_id = e.id;
  work_item_id = item_id item;
  provider_id = provider_id;
}

abbrev pub use_thread :
    ConversationThread → Option ConversationThread → Action OrchestrationDb ConversationThread
use_thread fresh (some t) = pure t
use_thread fresh none = do
  modify_state (λ s. record s { threads = s.threads ++ fresh ∷ [] })
  pure fresh

-- `_thread_for`, where a new thread takes the key `id`.
unfoldable pub thread_for :
    ℕ → AiEmployee → Option WorkItem → ℕ → Action OrchestrationDb ConversationThread
thread_for id e item provider_id = do
  found ← gets (λ s. first (fits_thread e item) s.threads)
  use_thread (new_thread id e item provider_id) found

abbrev pub in_thread : ℕ → ExecutionMessage → Bool
in_thread thread_id m = m.thread_id == thread_id

abbrev pub thread_messages : ℕ → OrchestrationDb → List ExecutionMessage
thread_messages thread_id s = keep (in_thread thread_id) s.messages

-- Python's `max` of a list that starts with `x`.
abbrev pub max_of : ℕ → List ℕ → ℕ
max_of x [] = x
max_of x (y ∷ ys) = max_of (if ltb x y then y else x) ys

abbrev pub after_max : List ℕ → ℕ
after_max [] = 0
after_max (x ∷ xs) = max_of x xs + 1

-- `_next_seq`
unfoldable pub next_seq : ℕ → OrchestrationDb → ℕ
next_seq thread_id s =
    after_max (map (λ (m : ExecutionMessage). m.sequence) (thread_messages thread_id s))

abbrev pub message_row : ℕ → ℕ → ℕ → Message → ExecutionMessage
message_row thread_id run_id seq m = record {
  thread_id = thread_id;
  run_id = run_id;
  role = m.role;
  content = m.content;
  sequence = seq;
}

-- The loop that stores the prompt's messages, from number `seq` on.
abbrev pub number_from : ℕ → ℕ → ℕ → List Message → List ExecutionMessage
number_from thread_id run_id seq [] = []
number_from thread_id run_id seq (m ∷ ms) =
    message_row thread_id run_id seq m ∷ number_from thread_id run_id (suc seq) ms

abbrev pub add_messages : List ExecutionMessage → OrchestrationDb → OrchestrationDb
add_messages rows s = record s { messages = s.messages ++ rows }

-- `ORDER BY sequence DESC`, where equal numbers keep their order.
abbrev pub insert_desc : ExecutionMessage → List ExecutionMessage → List ExecutionMessage
insert_desc m [] = m ∷ []
insert_desc m (n ∷ ns) =
    let rest = insert_desc m ns in if ltb m.sequence n.sequence then n ∷ rest else m ∷ n ∷ ns

unfoldable pub order_desc : List ExecutionMessage → List ExecutionMessage
order_desc [] = []
order_desc (m ∷ ms) = insert_desc m (order_desc ms)

abbrev pub reversed : {A : Type 0} → List A → List A
reversed [] = []
reversed (x ∷ xs) = reversed xs ++ x ∷ []

-- `MemoryService.short_term`
unfoldable pub short_term : ℕ → ℕ → OrchestrationDb → List ExecutionMessage
short_term thread_id limit s = reversed (take limit (order_desc (thread_messages thread_id s)))
