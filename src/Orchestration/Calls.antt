-- ===== src/Orchestration/Calls.antt =====
-- Which providers the failover asks, and how often.
use wes.Base.{
  ℕ, zero, suc, ◌+◌, ◌*◌, ◌≤◌, Bool, true, false, Option, none, some, List, [], ◌∷◌, ◌++◌, ◌≡◌,
  refl, ◌∙◌, sym, arith, length, length-append, append_nil, append_assoc, All, All-append, Text,
  Action, Moves, bind-Moves, ◌>>=◌,
}
use wes.Platform.State.{AiProvider}
use wes.Platform.Usage.{ExecutionResult}
use wes.Orchestration.State.{OrchestrationDb}
use wes.Orchestration.Attempts.{
  Answer, answered, rate_limited, refused, crashed, Request, Outcome, contact, settle, attempts,
  max_attempts, note_rate_limit, note_error, execute_with_retry, announce, choose, try_chain,
}

-- At most `n` more calls, each to a provider whose key satisfies `C`.
abbrev pub Asks : (ℕ → Type 0) → ℕ → OrchestrationDb → OrchestrationDb → Type 0
Asks C n s t = (xs : List ℕ) × (t.calls ≡ s.calls ++ xs) × (length xs ≤ n) × All C xs

module _ (C : ℕ → Type 0) where
  pub Asks-none : (n : ℕ) (s t : OrchestrationDb) → t.calls ≡ s.calls → Asks C n s t
  Asks-none n s t e = ([], e ∙ rw (append_nil s.calls) refl, omega arith, tt)

  pub Asks-more : (m n : ℕ) (s t : OrchestrationDb) → m ≤ n → Asks C m s t → Asks C n s t
  Asks-more m n s t h (xs, e, l, a) = (xs, e, omega (arith, h, l), a)

  Asks-then : (m n : ℕ) (s t u : OrchestrationDb) → Asks C m s t → Asks C n t u → Asks C (m + n) s u
  Asks-then m n s t u (xs, e, l, a) (ys, e', l', a') = (
    xs ++ ys,
    e' ∙ rw (e, append_assoc s.calls xs ys) refl,
    omega (arith, l, l', length-append xs ys),
    All-append C xs ys a a',
  )

  pub bind-Asks :
      {A B : Type 0} (m n l : ℕ) (x : Action OrchestrationDb A) (k : A → Action OrchestrationDb B)
      → m + n ≤ l
      → Moves (Asks C m) x
      → ((a : A) → Moves (Asks C n) (k a))
      → Moves (Asks C l) (x >>= k)
  bind-Asks m n l x k h =
      bind-Moves (Asks C m) (Asks C n) (Asks C l) (λ s t p. Asks-more m l s t (omega (arith, h)) p)
        (λ s t u p q. Asks-more (m + n) l s u h (Asks-then m n s t u p q)) x k

module _ (execute : List ℕ → AiProvider → Request → Answer) (actor : Text) (run_id : ℕ)
    (request : Request) (C : ℕ → Type 0) where
  contact-Asks :
      (p : AiProvider) → C p.id → Moves (Asks C 1) (contact execute actor run_id request p)
  unfolding contact
  contact-Asks p c s = (p.id ∷ [], refl, omega arith, (c, tt))

  settle-Asks :
      (p : AiProvider) (attempt n : ℕ)
      (again : Text → Action OrchestrationDb (Outcome ExecutionResult))
      → ((error : Text) → Moves (Asks C n) (again error))
      → (answer : Answer)
      → Moves (Asks C n) (settle execute actor run_id request p attempt again answer)
  unfolding settle
  settle-Asks p attempt n again h (answered r) s = ([], sym (append_nil s.calls), omega arith, tt)
  settle-Asks p attempt n again h (rate_limited error) s =
      h error (note_rate_limit execute actor run_id request p attempt error s)
  settle-Asks p attempt n again h (refused error) s =
      ([], sym (append_nil s.calls), omega arith, tt)
  settle-Asks p attempt n again h crashed s = ([], sym (append_nil s.calls), omega arith, tt)

  attempts-Asks :
      (p : AiProvider) (left attempt : ℕ) (last : Option Text)
      → C p.id
      → Moves (Asks C left) (attempts execute actor run_id request p left attempt last)
  unfolding attempts
  attempts-Asks p zero attempt last c s = ([], sym (append_nil s.calls), omega arith, tt)
  attempts-Asks p (suc left) attempt last c s =
      bind-Asks C 1 left (suc left) (contact execute actor run_id request p)
        (settle execute actor run_id request p attempt
          (λ error. attempts execute actor run_id request p left (suc attempt) (some error)))
        (omega arith) (contact-Asks p c)
        (settle-Asks p attempt left
          (λ error. attempts execute actor run_id request p left (suc attempt) (some error))
          (λ error. attempts-Asks p left (suc attempt) (some error) c))
        s

  choose-Asks :
      (primary : AiProvider) (is_first : Bool) (p : AiProvider) (n : ℕ)
      (next : Option Text → Action OrchestrationDb (Outcome (AiProvider × ExecutionResult)))
      → ((error : Option Text) → Moves (Asks C n) (next error))
      → (outcome : Outcome ExecutionResult)
      → Moves (Asks C n) (choose execute actor run_id request primary is_first p next outcome)
  unfolding choose announce
  choose-Asks primary true p n next h (some r, error) s =
      ([], sym (append_nil s.calls), omega arith, tt)
  choose-Asks primary false p n next h (some r, error) s =
      ([], sym (append_nil s.calls), omega arith, tt)
  choose-Asks primary is_first p n next h (none, error) s =
      h error (note_error execute actor run_id request p error s)

  pub try_chain-Asks :
      (primary : AiProvider) (is_first : Bool) (ps : List AiProvider) (last : Option Text)
      → All (λ (p : AiProvider). C p.id) ps
      → Moves
          (Asks C (2 * length ps))
          (try_chain execute actor run_id request primary is_first ps last)
  unfolding try_chain execute_with_retry
  try_chain-Asks primary is_first [] last c s = ([], sym (append_nil s.calls), omega arith, tt)
  try_chain-Asks primary is_first (p ∷ ps) last c s =
      bind-Asks C 2 (2 * length ps) (2 * length (p ∷ ps))
        (attempts execute actor run_id request p max_attempts 1 none)
        (choose execute actor run_id request primary is_first p
          (try_chain execute actor run_id request primary false ps))
        (omega arith) (attempts-Asks p max_attempts 1 none c.0)
        (choose-Asks primary is_first p (2 * length ps)
          (try_chain execute actor run_id request primary false ps)
          (λ error. try_chain-Asks primary false ps error c.1))
        s
