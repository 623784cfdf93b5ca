-- ===== src/Orchestration/Numbers.antt =====
-- Messages that are numbered without a gap, and the short-term memory over them.
use wes.Base.{
  ℕ, suc, ◌+◌, false, List, [], ◌∷◌, ◌++◌, ◌≡◌, refl, ◌∙◌, ap, subst, arith, inl, inr, map, keep,
  keep-append, append_nil, length, length-append, ltb, Bool-cases, ◌==◌, if◌then◌else◌, ==_iff,
  ==_refl,
}
use wes.Orchestration.State.{OrchestrationDb, ExecutionMessage, Message}
use wes.Orchestration.Threads.{
  in_thread, thread_messages, max_of, after_max, next_seq, message_row, number_from,
}

-- The messages are numbered from `n` on, in order.
abbrev pub Consecutive : ℕ → List ExecutionMessage → Type 0
Consecutive n [] = Unit
Consecutive n (m ∷ ms) = (m.sequence ≡ n) × Consecutive (suc n) ms

-- The messages of every thread are numbered from 0 on, in the order in which they were stored.
abbrev pub IsNumbered : List ExecutionMessage → Type 0
IsNumbered ms = (thread_id : ℕ) → Consecutive 0 (keep (in_thread thread_id) ms)

Consecutive-append :
    (n : ℕ) (xs ys : List ExecutionMessage)
    → Consecutive n xs
    → Consecutive (n + length xs) ys
    → Consecutive n (xs ++ ys)
Consecutive-append n [] ys h k = subst (λ a. Consecutive a ys) (omega arith) k
Consecutive-append n (x ∷ xs) ys h k =
    (h.0, Consecutive-append (suc n) xs ys h.1 (subst (λ a. Consecutive a ys) (omega arith) k))

max_of-Consecutive :
    (n : ℕ) (xs : List ExecutionMessage)
    → Consecutive (suc n) xs
    → max_of n (map (λ (m : ExecutionMessage). m.sequence) xs) ≡ n + length xs
max_of-Consecutive n [] h = omega arith
max_of-Consecutive n (x ∷ xs) h =
    let e : (if ltb n x.sequence then x.sequence else n) ≡ suc n = ground (arith, h.0) in
    ap (λ a. max_of a (map (λ (m : ExecutionMessage). m.sequence) xs)) e
    ∙ (max_of-Consecutive (suc n) xs h.1 ∙ omega arith)

-- The number after the last one is the number of messages.
after_max-Consecutive :
    (xs : List ExecutionMessage)
    → Consecutive 0 xs
    → after_max (map (λ (m : ExecutionMessage). m.sequence) xs) ≡ length xs
after_max-Consecutive [] h = refl
after_max-Consecutive (x ∷ xs) h =
    let e = max_of-Consecutive 0 xs h.1 in rw (h.0) (omega (arith, e))

pub next_seq-IsNumbered :
    (thread_id : ℕ) (s : OrchestrationDb)
    → IsNumbered s.messages
    → next_seq thread_id s ≡ length (thread_messages thread_id s)
unfolding next_seq
next_seq-IsNumbered thread_id s h =
    after_max-Consecutive (keep (in_thread thread_id) s.messages) (h thread_id)

keep-number_from_self :
    (t run_id n : ℕ) (ms : List Message)
    → keep (in_thread t) (number_from t run_id n ms) ≡ number_from t run_id n ms
keep-number_from_self t run_id n [] = refl
keep-number_from_self t run_id n (m ∷ ms) =
    rw (==_refl t)
      (ap (λ l. message_row t run_id n m ∷ l) (keep-number_from_self t run_id (suc n) ms))

keep-number_from_other :
    (k t run_id n : ℕ) (ms : List Message)
    → (t == k) ≡ false
    → keep (in_thread k) (number_from t run_id n ms) ≡ []
keep-number_from_other k t run_id n [] h = refl
keep-number_from_other k t run_id n (m ∷ ms) h =
    rw h (keep-number_from_other k t run_id (suc n) ms h)

number_from-Consecutive :
    (t run_id n : ℕ) (ms : List Message) → Consecutive n (number_from t run_id n ms)
number_from-Consecutive t run_id n [] = tt
number_from-Consecutive t run_id n (m ∷ ms) = (refl, number_from-Consecutive t run_id (suc n) ms)

length-number_from :
    (t run_id n : ℕ) (ms : List Message) → length (number_from t run_id n ms) ≡ length ms
length-number_from t run_id n [] = refl
length-number_from t run_id n (m ∷ ms) = ap (λ k. suc k) (length-number_from t run_id (suc n) ms)

-- Storing messages from the next number on keeps the numbering.
pub add_messages-IsNumbered :
    (t run_id n : ℕ) (ms : List Message) (rows : List ExecutionMessage)
    → IsNumbered rows
    → n ≡ length (keep (in_thread t) rows)
    → IsNumbered (rows ++ number_from t run_id n ms)
add_messages-IsNumbered t run_id n ms rows h e k =
    rw (keep-append (in_thread k) rows (number_from t run_id n ms)) (elim (Bool-cases (t == k)) [
      | inl same ↦
          let own : Consecutive (0 + length (keep (in_thread t) rows)) (number_from t run_id n ms) =
            subst (λ a. Consecutive a (number_from t run_id n ms)) (e ∙ omega arith)
              (number_from-Consecutive t run_id n ms) in
          subst
            (λ j.
              Consecutive 0
                (keep (in_thread j) rows ++ keep (in_thread j) (number_from t run_id n ms)))
            ((==_iff t k).0 same)
            (Consecutive-append 0 (keep (in_thread t) rows)
              (keep (in_thread t) (number_from t run_id n ms)) (h t)
              (rw (keep-number_from_self t run_id n ms) own))
      | inr other ↦
          rw (keep-number_from_other k t run_id n ms other, append_nil (keep (in_thread k) rows))
            (h k)
    ])

pub length-add_messages :
    (t run_id n : ℕ) (ms : List Message) (rows : List ExecutionMessage)
    → length (keep (in_thread t) (rows ++ number_from t run_id n ms))
      ≡ length (keep (in_thread t) rows) + length ms
length-add_messages t run_id n ms rows =
    rw
      (
        keep-append (in_thread t) rows (number_from t run_id n ms),
        keep-number_from_self t run_id n ms,
      )
      (omega (
        arith,
        length-append (keep (in_thread t) rows) (number_from t run_id n ms),
        length-number_from t run_id n ms,
      ))
