-- ===== src/Orchestration/Numbering.antt =====
-- Every run, and every workflow, keeps the messages of each thread numbered without a gap.
use wes.Base.{
  pure, ◌+◌, ℕ, suc, Bool, true, false, Option, none, some, List, [], ◌∷◌, ◌≡◌, refl, ◌∙◌, sym, ap,
  subst, Text, Action, Error, Moves, bind-Moves, map, length, keep, find, first, or_raise,
  not_found, validation, ◌>>=◌,
}
use wes.Platform.Float.{FloatOps}
use wes.Platform.State.{AiProvider}
use wes.Platform.Providers.{get_by_name}
use wes.Platform.Usage.{ExecutionResult}
use wes.Platform.Budget.{BudgetDecision, or_default_config}
use wes.Platform.Caps.{check-allowed}
use wes.Orchestration.State.{
  OrchestrationDb, AiEmployee, WorkItem, ConversationThread, Message, MessageRole, Handoff,
  employee_key,
}
use wes.Orchestration.Prompt.{build}
use wes.Orchestration.Attempts.{Outcome, try_chain}
use wes.Orchestration.Threads.{
  in_thread, thread_for, use_thread, new_thread, fits_thread, next_seq, short_term,
}
use wes.Orchestration.Runs.{
  World, Started, chain_of, block, fail, succeed, finish, conclude, execute_chain, proceed, decided,
  gate, cost_of, tokens_of,
}
use wes.Orchestration.Stage.{
  add_run, new_run, opened, started, open_run, prompt, begin, run_stage, run_item, resolve,
  asked_name, is_asked, item_of, as_message, run_handoffs, run_workflow, order_handoffs, of_item,
}
use wes.Orchestration.Gate.{gate-check}
use wes.Orchestration.Stored.{stored, try_chain-Keeps}
use wes.Orchestration.Numbers.{
  IsNumbered, next_seq-IsNumbered, add_messages-IsNumbered, length-add_messages,
}

abbrev pub Numbers : OrchestrationDb → OrchestrationDb → Type 0
Numbers s t = IsNumbered s.messages → IsNumbered t.messages

-- The number that a run has kept for its answer is the next one of its thread.
abbrev pub IsNext : Started → OrchestrationDb → Type 0
IsNext st s = st.seq ≡ length (keep (in_thread st.thread_id) s.messages)

abbrev pub Concludes : Started → OrchestrationDb → OrchestrationDb → Type 0
Concludes st s t = IsNumbered s.messages → IsNext st s → IsNumbered t.messages

bind-Numbers :
    {A B : Type 0} (m : Action OrchestrationDb A) (k : A → Action OrchestrationDb B)
    → Moves (λ s t. t.messages ≡ s.messages) m
    → ((a : A) → Moves Numbers (k a))
    → Moves Numbers (m >>= k)
bind-Numbers =
    bind-Moves (λ s t. t.messages ≡ s.messages) Numbers Numbers
      (λ s t e h. subst IsNumbered (sym e) h) (λ s t u e k h. k (subst IsNumbered (sym e) h))

module _ (ops : FloatOps) (w : World) where
  conclude-Concludes :
      (st : Started) (o : Outcome (AiProvider × ExecutionResult))
      → Moves (Concludes st) (conclude ops w st o)
  unfolding conclude finish succeed fail
  conclude-Concludes st (some (p, result), last) s h n =
      add_messages-IsNumbered st.thread_id w.run_id st.seq
        (record { role = MessageRole.assistant; content = result.output } ∷ []) s.messages h n
  conclude-Concludes st (none, last) s h n = h

  execute_chain-Concludes :
      (st : Started) (ps : List AiProvider) → Moves (Concludes st) (execute_chain ops w st ps)
  unfolding execute_chain
  execute_chain-Concludes st ps =
      bind-Moves (λ s t. stored t ≡ stored s) (Concludes st) (Concludes st)
        (λ s t e h n. subst IsNumbered (sym (ap (λ x. x.0) e)) h)
        (λ s t u e k h n.
          k (subst IsNumbered (sym (ap (λ x. x.0) e)) h)
            (n ∙ ap (λ ms. length (keep (in_thread st.thread_id) ms)) (sym (ap (λ x. x.0) e))))
        (try_chain w.execute w.actor w.run_id st.request st.primary true ps none)
        (conclude ops w st)
        (try_chain-Keeps w.execute w.actor w.run_id st.request st.primary true ps none)
        (conclude-Concludes st)

  decided-Concludes :
      (b : Bool) (st : Started) (d : BudgetDecision) → Moves (Concludes st) (decided ops w b st d)
  unfolding proceed block
  decided-Concludes true st d s h n =
      execute_chain-Concludes st (chain_of st.explicit st.primary s) s h n
  decided-Concludes false st d s h n = h

  gate-Concludes : (st : Started) → Moves (Concludes st) (gate ops w st)
  gate-Concludes st s h n =
      let (d, c, _) =
        check-allowed ops w.today (cost_of ops w st) (tokens_of ops w st) s.platform in
      let p = record s.platform { budget = some (or_default_config s.platform.budget) } in
      subst (λ x. IsNumbered x.1.messages) (sym (gate-check ops w st s d p c))
        (decided-Concludes d.allowed st d (record s { platform = p }) h n)

  open_run-Numbers :
      (explicit : Bool) (e : AiEmployee) (item : Option WorkItem) (p : AiProvider)
      (thread : ConversationThread) (messages : List Message)
      → Moves Numbers (open_run ops w explicit e item p thread messages)
  unfolding open_run
  open_run-Numbers explicit e item p thread messages s h =
      let s1 = add_run (new_run w thread e item p) s in
      let n = next_seq thread.id s1 in
      let next : n ≡ length (keep (in_thread thread.id) s1.messages) =
        next_seq-IsNumbered thread.id s1 h in
      gate-Concludes (started explicit e item p thread messages n)
        (opened w e item p thread messages s)
        (add_messages-IsNumbered thread.id w.run_id n messages s1.messages h next)
        (ap (λ a. a + length messages) next
          ∙ sym (length-add_messages thread.id w.run_id n messages s.messages))

  use_thread_messages :
      (fresh : ConversationThread) (found : Option ConversationThread)
      → Moves (λ s t. t.messages ≡ s.messages) (use_thread fresh found)
  use_thread_messages fresh none s = refl
  use_thread_messages fresh (some t) s = refl

  begin-Numbers :
      (explicit : Bool) (e : AiEmployee) (item : Option WorkItem) (p : AiProvider)
      → Moves Numbers (begin ops w explicit e item p)
  unfolding begin prompt thread_for
  begin-Numbers explicit e item p =
      bind-Numbers (thread_for w.thread_id e item p.id) (prompt ops w explicit e item p)
        (λ s.
          use_thread_messages (new_thread w.thread_id e item p.id)
            (first (fits_thread e item) s.threads) s)
        (λ thread s.
          open_run-Numbers explicit e item p thread
            (build w.dash (w.context e item) (map as_message (short_term thread.id 10 s))) s)

or_raise_messages :
    {A : Type 0} (o : Option A) (e : Error)
    → Moves (λ (s t : OrchestrationDb). t.messages ≡ s.messages) (or_raise o e)
or_raise_messages none e s = refl
or_raise_messages (some a) e s = refl

resolve_messages :
    (e : AiEmployee) (name : Option Text) → Moves (λ s t. t.messages ≡ s.messages) (resolve e name)
resolve_messages e none s = refl
resolve_messages e (some name) s = or_raise_messages (get_by_name name s.platform) validation s

run_stage-Numbers :
    (ops : FloatOps) (w : World) (employee_id : ℕ) (work_item_id : Option ℕ)
    (provider_name : Option Text)
    → Moves Numbers (run_stage ops w employee_id work_item_id provider_name)
unfolding run_stage
run_stage-Numbers ops w employee_id work_item_id name s =
    bind-Numbers (or_raise (find employee_key employee_id s.employees) not_found)
      (run_item ops w work_item_id name)
      (or_raise_messages (find employee_key employee_id s.employees) not_found)
      (λ e t.
        bind-Numbers (resolve e (asked_name name))
          (begin ops w (is_asked name) e (item_of work_item_id t))
          (resolve_messages e (asked_name name))
          (begin-Numbers ops w (is_asked name) e (item_of work_item_id t)) t)
      s

each_then :
    {A B : Type 0} (m : Action OrchestrationDb A) (k : A → Action OrchestrationDb B)
    → Moves Numbers m
    → ((a : A) → Moves Numbers (k a))
    → Moves Numbers (m >>= k)
each_then = bind-Moves Numbers Numbers Numbers (λ s t h. h) (λ s t u h k x. k (h x))

module _ (ops : FloatOps) (worlds : ℕ → World) (work_item_id : ℕ) (name : Option Text) where
  run_handoffs-Numbers :
      (n : ℕ) (hs : List Handoff) → Moves Numbers (run_handoffs ops worlds work_item_id name n hs)
  run_handoffs-Numbers n [] s = λ h. h
  run_handoffs-Numbers n (x ∷ hs) s =
      let rest = run_handoffs ops worlds work_item_id name (suc n) hs in
      each_then (run_stage ops (worlds n) x.to_ai_employee_id (some work_item_id) name)
        (λ run. rest >>= λ runs. pure (run ∷ runs))
        (run_stage-Numbers ops (worlds n) x.to_ai_employee_id (some work_item_id) name)
        (λ run.
          each_then rest (λ runs. pure (run ∷ runs)) (run_handoffs-Numbers (suc n) hs)
            (λ runs t h. h))
        s

  -- Whatever the handoffs of the work item, the providers' answers and the arguments, and however it
  -- ends: `run_workflow` keeps the messages of every thread numbered from 0 on without a gap, in the
  -- order in which they were stored.
  pub run_workflow-Numbers : Moves Numbers (run_workflow ops worlds work_item_id name)
  unfolding run_workflow
  run_workflow-Numbers s =
      run_handoffs-Numbers 0 (order_handoffs (keep (of_item work_item_id) s.handoffs)) s
