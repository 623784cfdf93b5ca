-- ===== src/Orchestration/Stage.antt =====
-- backend/app/services/orchestration.py: `run_stage` from its start, `run_workflow`, `review_run`.
use wes.Base.{
  ℕ, suc, ◌+◌, length, Bool, true, false, Option, none, some, List, [], ◌∷◌, ◌++◌, map, Text, codes,
  Action, pure, gets, or_raise, modify_state, ◌>>=◌, ◌>>◌, not_found, validation, find, keep, ◌==◌,
  if◌then◌else◌, ltb, is_nonempty,
}
use wes.Platform.Float.{FloatOps}
use wes.Platform.State.{AiProvider}
use wes.Platform.Providers.{get_by_name, provider_for_employee}
use wes.Orchestration.State.{
  OrchestrationDb, RunStatus, ReviewOutcome, Message, AiEmployee, AiRole, WorkItem, Handoff,
  ConversationThread, ExecutionRun, ExecutionMessage, run_key, employee_key, work_item_key,
  role_row_key,
}
use wes.Orchestration.Prompt.{TaskContext, build}
use wes.Orchestration.Threads.{thread_for, item_id, short_term, next_seq, number_from, add_messages}
use wes.Orchestration.Runs.{World, Started, write_run, lift, gate}

-- `provider_name`, where an empty name is none.
abbrev pub asked_name : Option Text → Option Text
asked_name none = none
asked_name (some []) = none
asked_name (some (c ∷ t)) = some (c ∷ t)

abbrev pub is_asked : Option Text → Bool
is_asked name = elim (asked_name name) [ none ↦ false | some t ↦ true ]

abbrev pub code_of_role : Option AiRole → Option Text
code_of_role none = none
code_of_role (some r) = some r.code

abbrev pub resolve : AiEmployee → Option Text → Action OrchestrationDb AiProvider
resolve e none = do
  code ← gets (λ s. code_of_role (find role_row_key e.role_id s.roles))
  lift (provider_for_employee code)
resolve e (some name) = do
  found ← gets (λ s. get_by_name name s.platform)
  or_raise found validation

-- `db.get(WorkItem, id) if id else None`: a key that is not found is no item.
abbrev pub item_of : Option ℕ → OrchestrationDb → Option WorkItem
item_of none s = none
item_of (some id) s = find work_item_key id s.work_items

abbrev pub project_of : Option WorkItem → Option ℕ
project_of none = none
project_of (some item) = some item.project_id

abbrev pub as_message : ExecutionMessage → Message
as_message m = record { role = m.role; content = m.content }

-- `p.active_model or p.default_model`
abbrev pub model_of : AiProvider → Option Text
model_of p = elim p.active_model [
  | none ↦ p.default_model
  | some t ↦ if is_nonempty t then some t else p.default_model
]

-- `(context.get("task") or {}).get("title") or "General duties"`
abbrev pub or_general : Text → Text
or_general t = if is_nonempty t then t else codes "General duties"

abbrev pub summary_of : Option TaskContext → Text
summary_of none = codes "General duties"
summary_of (some t) = or_general t.title

abbrev pub new_run :
    World → ConversationThread → AiEmployee → Option WorkItem → AiProvider → ExecutionRun
new_run w thread e item p = record {
  id = w.run_id;
  thread_id = thread.id;
  ai_employee_id = e.id;
  work_item_id = item_id item;
  provider_id = p.id;
  model = p.default_model;
  status = RunStatus.running;
  input_summary = summary_of (w.context e item).task;
  output = none;
  error = none;
  review_outcome = none;
  review_notes = none;
  started_at = w.now;
  completed_at = none;
  duration_ms = none;
}

abbrev pub add_run : ExecutionRun → OrchestrationDb → OrchestrationDb
add_run run s = record s { runs = s.runs ++ run ∷ [] }

abbrev pub started :
    Bool
    → AiEmployee
    → Option WorkItem
    → AiProvider
    → ConversationThread
    → List Message
    → ℕ
    → Started
started explicit e item p thread messages seq = record {
  primary = p;
  explicit = explicit;
  employee_id = e.id;
  project_id = project_of item;
  thread_id = thread.id;
  seq = seq + length messages;
  request = record { messages = messages; model = model_of p };
}

-- The state after the run's row and the messages of its prompt are stored.
abbrev pub opened :
    World
    → AiEmployee
    → Option WorkItem
    → AiProvider
    → ConversationThread
    → List Message
    → OrchestrationDb
    → OrchestrationDb
opened w e item p thread messages s =
    let s1 = add_run (new_run w thread e item p) s in
    add_messages (number_from thread.id w.run_id (next_seq thread.id s1) messages) s1

module _ (ops : FloatOps) (w : World) where
  -- The run's row and the messages of its prompt, then the gate.
  unfoldable pub open_run :
      Bool
      → AiEmployee
      → Option WorkItem
      → AiProvider
      → ConversationThread
      → List Message
      → Action OrchestrationDb ℕ
  open_run explicit e item p thread messages = do
    seq ← gets (λ s. next_seq thread.id (add_run (new_run w thread e item p) s))
    modify_state (opened w e item p thread messages)
    gate ops w (started explicit e item p thread messages seq)

  -- The prompt, from the last ten messages of the thread.
  unfoldable pub prompt :
      Bool
      → AiEmployee
      → Option WorkItem
      → AiProvider
      → ConversationThread
      → Action OrchestrationDb ℕ
  prompt explicit e item p thread = do
    prior ← gets (λ s. map as_message (short_term thread.id 10 s))
    open_run explicit e item p thread (build w.dash (w.context e item) prior)

  unfoldable pub begin : Bool → AiEmployee → Option WorkItem → AiProvider → Action OrchestrationDb ℕ
  begin explicit e item p = thread_for w.thread_id e item p.id >>= prompt explicit e item p

  abbrev pub run_item : Option ℕ → Option Text → AiEmployee → Action OrchestrationDb ℕ
  run_item work_item_id provider_name e s =
      (resolve e (asked_name provider_name)
          >>= begin (is_asked provider_name) e (item_of work_item_id s))
        s

  unfoldable pub run_stage : ℕ → Option ℕ → Option Text → Action OrchestrationDb ℕ
  run_stage employee_id work_item_id provider_name s =
      (or_raise (find employee_key employee_id s.employees) not_found
          >>= run_item work_item_id provider_name)
        s

-- `ORDER BY sequence`, where equal numbers keep their order.
abbrev pub insert_handoff : Handoff → List Handoff → List Handoff
insert_handoff h [] = h ∷ []
insert_handoff h (k ∷ ks) =
    let rest = insert_handoff h ks in if ltb k.sequence h.sequence then k ∷ rest else h ∷ k ∷ ks

abbrev pub order_handoffs : List Handoff → List Handoff
order_handoffs [] = []
order_handoffs (h ∷ hs) = insert_handoff h (order_handoffs hs)

abbrev pub of_item : ℕ → Handoff → Bool
of_item id h = h.work_item_id == id

module _ (ops : FloatOps) (worlds : ℕ → World) (work_item_id : ℕ)
    (provider_name : Option Text) where
  -- The loop over the handoffs; the world of run number `n` is `worlds n`.
  abbrev pub run_handoffs : ℕ → List Handoff → Action OrchestrationDb (List ℕ)
  run_handoffs n [] = pure []
  run_handoffs n (h ∷ hs) = do
    run ← run_stage ops (worlds n) h.to_ai_employee_id (some work_item_id) provider_name
    runs ← run_handoffs (suc n) hs
    pure (run ∷ runs)

  unfoldable pub run_workflow : Action OrchestrationDb (List ℕ)
  run_workflow = do
    handoffs ← gets (λ s. order_handoffs (keep (of_item work_item_id) s.handoffs))
    run_handoffs 0 handoffs

unfoldable pub review_run : ℕ → ReviewOutcome → Option Text → Action OrchestrationDb (Unit {0})
review_run id outcome notes = do
  found ← gets (λ s. find run_key id s.runs)
  or_raise found not_found
  modify_state
      (write_run id (λ r. record r { review_outcome = some outcome; review_notes = notes }))
