-- ===== src/Orchestration/Failover.antt =====
-- The calls of a whole run, and of a run for which a provider was asked for by name.
use wes.Base.{
  append_nil, map, ℕ, ◌*◌, Bool, true, false, Option, none, some, List, [], ◌∷◌, ◌++◌, ◌≡◌, refl,
  ◌∙◌, ap, sym, subst, arith, length, All, keep, Action, Moves, bind-Moves, ◌>>=◌, first,
}
use wes.Platform.Float.{FloatOps}
use wes.Platform.State.{AiProvider}
use wes.Platform.Usage.{ExecutionResult, chain, sort, is_other}
use wes.Platform.Budget.{BudgetDecision, check, get_config}
use wes.Orchestration.State.{OrchestrationDb, AiEmployee, WorkItem, ConversationThread, Message}
use wes.Orchestration.Attempts.{Outcome, try_chain}
use wes.Orchestration.Prompt.{build}
use wes.Orchestration.Threads.{
  short_term, next_seq, thread_for, use_thread, new_thread, fits_thread,
}
use wes.Orchestration.Runs.{
  World, Started, chain_of, block, fail, succeed, finish, conclude, cost_of, tokens_of,
  execute_chain, proceed, decided, gate, lift,
}
use wes.Orchestration.Stage.{add_run, new_run, opened, as_message, started, open_run, prompt, begin}
use wes.Orchestration.Calls.{Asks, Asks-none, bind-Asks, try_chain-Asks}

-- If every provider of the chain satisfies `C`, so do the providers called; each has two calls at
-- most on average.
abbrev pub Asked : (ℕ → Type 0) → Bool → AiProvider → OrchestrationDb → OrchestrationDb → Type 0
Asked C explicit p s t =
    All (λ (q : AiProvider). C q.id) (chain_of explicit p s)
    → Asks C (2 * length (chain_of explicit p s)) s t

abbrev pub Calm : OrchestrationDb → OrchestrationDb → Type 0
Calm s t = (t.calls ≡ s.calls) × (t.platform.providers ≡ s.platform.providers)

chain_of-Calm :
    (explicit : Bool) (p : AiProvider) (s t : OrchestrationDb)
    → Calm s t
    → chain_of explicit p t ≡ chain_of explicit p s
unfolding chain
chain_of-Calm true p s t c = refl
chain_of-Calm false p s t c = ap (λ ps. p ∷ sort (keep (is_other p) ps)) c.1

module _ (C : ℕ → Type 0) where
  pub Asks-from :
      (n : ℕ) (s t u : OrchestrationDb) → t.calls ≡ s.calls → Asks C n t u → Asks C n s u
  Asks-from n s t u e (xs, e', l, a) = (xs, e' ∙ ap (λ (c : List ℕ). c ++ xs) e, l, a)

  Asked-from :
      (explicit : Bool) (p : AiProvider) (s t u : OrchestrationDb)
      → Calm s t
      → Asked C explicit p t u
      → Asked C explicit p s u
  Asked-from explicit p s t u c h a =
      let e : chain_of explicit p t ≡ chain_of explicit p s = chain_of-Calm explicit p s t c in
      subst (λ (ps : List AiProvider). Asks C (2 * length ps) s u) e
        (Asks-from (2 * length (chain_of explicit p t)) s t u c.0
          (h (subst (λ ps. All (λ (q : AiProvider). C q.id) ps) (sym e) a)))

  bind-Calm :
      {A B : Type 0} (explicit : Bool) (p : AiProvider) (m : Action OrchestrationDb A)
      (k : A → Action OrchestrationDb B)
      → Moves Calm m
      → ((a : A) → Moves (Asked C explicit p) (k a))
      → Moves (Asked C explicit p) (m >>= k)
  bind-Calm explicit p =
      bind-Moves Calm (Asked C explicit p) (Asked C explicit p)
        (λ s t c a. Asks-none C (2 * length (chain_of explicit p s)) s t c.0)
        (Asked-from explicit p)

module _ (ops : FloatOps) (w : World) (C : ℕ → Type 0) where
  conclude_calls :
      (st : Started) (o : Outcome (AiProvider × ExecutionResult)) (s : OrchestrationDb)
      → (conclude ops w st o s).1.calls ≡ s.calls
  unfolding conclude finish succeed fail
  conclude_calls st (some (p, result), last) s = refl
  conclude_calls st (none, last) s = refl

  execute_chain-Asks :
      (st : Started) (ps : List AiProvider)
      → All (λ (q : AiProvider). C q.id) ps
      → Moves (Asks C (2 * length ps)) (execute_chain ops w st ps)
  unfolding execute_chain
  execute_chain-Asks st ps a =
      bind-Asks C (2 * length ps) 0 (2 * length ps)
        (try_chain w.execute w.actor w.run_id st.request st.primary true ps none)
        (conclude ops w st) (omega arith)
        (try_chain-Asks w.execute w.actor w.run_id st.request C st.primary true ps none a)
        (λ o s. Asks-none C 0 s (conclude ops w st o s).1 (conclude_calls st o s))

  decided-Asked :
      (b : Bool) (st : Started) (d : BudgetDecision)
      → Moves (Asked C st.explicit st.primary) (decided ops w b st d)
  unfolding proceed block
  decided-Asked true st d s a = execute_chain-Asks st (chain_of st.explicit st.primary s) a s
  decided-Asked false st d s a = ([], sym (append_nil s.calls), omega arith, tt)

  gate-Asked : (st : Started) → Moves (Asked C st.explicit st.primary) (gate ops w st)
  unfolding gate check get_config chain
  gate-Asked st =
      bind-Calm C st.explicit st.primary
        (lift (check ops w.today (cost_of ops w st) (tokens_of ops w st)))
        (λ d. decided ops w d.allowed st d) (λ s. (refl, refl)) (λ d. decided-Asked d.allowed st d)

  open_run-Asked :
      (explicit : Bool) (e : AiEmployee) (item : Option WorkItem) (p : AiProvider)
      (thread : ConversationThread) (messages : List Message)
      → Moves (Asked C explicit p) (open_run ops w explicit e item p thread messages)
  unfolding open_run chain
  open_run-Asked explicit e item p thread messages s =
      let st =
        started explicit e item p thread messages
          (next_seq thread.id (add_run (new_run w thread e item p) s)) in
      let s1 = opened w e item p thread messages s in
      Asked-from C explicit p s s1 (gate ops w st s1).1 (refl, refl) (gate-Asked st s1)

  use_thread-Calm :
      (fresh : ConversationThread) (found : Option ConversationThread)
      → Moves Calm (use_thread fresh found)
  use_thread-Calm fresh none s = (refl, refl)
  use_thread-Calm fresh (some t) s = (refl, refl)

  pub begin-Asked :
      (explicit : Bool) (e : AiEmployee) (item : Option WorkItem) (p : AiProvider)
      → Moves (Asked C explicit p) (begin ops w explicit e item p)
  unfolding begin thread_for prompt
  begin-Asked explicit e item p =
      bind-Calm C explicit p (thread_for w.thread_id e item p.id) (prompt ops w explicit e item p)
        (λ s.
          use_thread-Calm (new_thread w.thread_id e item p.id)
            (first (fits_thread e item) s.threads) s)
        (λ thread s.
          open_run-Asked explicit e item p thread
            (build w.dash (w.context e item) (map as_message (short_term thread.id 10 s))) s)
