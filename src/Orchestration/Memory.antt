-- ===== src/Orchestration/Memory.antt =====
-- The short-term memory over messages that are numbered without a gap.
use wes.Base.{
  ℕ, zero, suc, ◌+◌, ◌≤◌, List, [], ◌∷◌, ◌++◌, ◌≡◌, ◌⊎◌, refl, ◌∙◌, sym, ap, subst, arith, inl, inr,
  append_nil, append_assoc, length, length-append, take, drop,
}
use wes.Orchestration.State.{OrchestrationDb, ExecutionMessage}
use wes.Orchestration.Threads.{thread_messages, insert_desc, order_desc, reversed, short_term}
use wes.Orchestration.Numbers.{Consecutive, IsNumbered}

-- The order by falling numbers turns consecutive messages around.
insert_desc-lower :
    (m : ExecutionMessage) (n : ℕ) (ys xs : List ExecutionMessage)
    → Consecutive n ys
    → m.sequence + 1 ≤ n
    → insert_desc m (reversed ys ++ xs) ≡ reversed ys ++ insert_desc m xs
insert_desc-lower m n [] xs h l = refl
insert_desc-lower m n (y ∷ ys) xs h l =
    let e : insert_desc m (y ∷ xs) ≡ y ∷ insert_desc m xs = ground (arith, h.0) in
    rw
      (
        append_assoc (reversed ys) (y ∷ []) xs,
        append_assoc (reversed ys) (y ∷ []) (insert_desc m xs),
      )
      (insert_desc-lower m (suc n) ys (y ∷ xs) h.1 (omega (arith, l))
        ∙ ap (λ l. reversed ys ++ l) e)

order_desc-Consecutive :
    (n : ℕ) (ms : List ExecutionMessage) → Consecutive n ms → order_desc ms ≡ reversed ms
unfolding order_desc
order_desc-Consecutive n [] h = refl
order_desc-Consecutive n (m ∷ ms) h = rw (order_desc-Consecutive (suc n) ms h.1) (
    subst (λ l. insert_desc m l ≡ reversed ms ++ m ∷ []) (append_nil (reversed ms))
      (insert_desc-lower m (suc n) ms [] h.1 (omega (arith, h.0))))

take-drop : (n : ℕ) (xs : List ExecutionMessage) → take n xs ++ drop n xs ≡ xs
take-drop zero xs = refl
take-drop (suc n) [] = refl
take-drop (suc n) (x ∷ xs) = ap (λ l. x ∷ l) (take-drop n xs)

length-take_or : (n : ℕ) (xs : List ExecutionMessage) → (length (take n xs) ≡ n) ⊎ (drop n xs ≡ [])
length-take_or zero xs = inl refl
length-take_or (suc n) [] = inr refl
length-take_or (suc n) (x ∷ xs) = elim (length-take_or n xs) [
  | inl e ↦ inl (ap (λ k. suc k) e)
  | inr e ↦ inr e
]

length-reversed : (xs : List ExecutionMessage) → length (reversed xs) ≡ length xs
length-reversed [] = refl
length-reversed (x ∷ xs) = omega (arith, length-append (reversed xs) (x ∷ []), length-reversed xs)

reversed-append : (xs ys : List ExecutionMessage) → reversed (xs ++ ys) ≡ reversed ys ++ reversed xs
reversed-append [] ys = sym (append_nil (reversed ys))
reversed-append (x ∷ xs) ys =
    ap (λ l. l ++ x ∷ []) (reversed-append xs ys)
    ∙ append_assoc (reversed ys) (reversed xs) (x ∷ [])

reversed-reversed : (xs : List ExecutionMessage) → reversed (reversed xs) ≡ xs
reversed-reversed [] = refl
reversed-reversed (x ∷ xs) =
    reversed-append (reversed xs) (x ∷ []) ∙ ap (λ l. x ∷ l) (reversed-reversed xs)

-- Where the messages of each thread are numbered without a gap, the short-term memory is the end
-- of the thread in its order: the thread is some older messages and then the memory, and either the
-- memory has `limit` messages or there are no older ones.
pub short_term-IsNumbered :
    (thread_id limit : ℕ) (s : OrchestrationDb)
    → IsNumbered s.messages
    → (older : List ExecutionMessage) × (thread_messages thread_id s
        ≡ older ++ short_term thread_id limit s)
      × ((length (short_term thread_id limit s) ≡ limit) ⊎ (older ≡ []))
unfolding short_term
short_term-IsNumbered t n s h =
    let ms = thread_messages t s in
    let e : order_desc ms ≡ reversed ms = order_desc-Consecutive 0 ms (h t) in
    rw e (
      reversed (drop n (reversed ms)),
      sym (
          sym (reversed-append (take n (reversed ms)) (drop n (reversed ms)))
          ∙ (ap reversed (take-drop n (reversed ms)) ∙ reversed-reversed ms)),
      elim (length-take_or n (reversed ms)) [
        | inl k ↦ inl (length-reversed (take n (reversed ms)) ∙ k)
        | inr k ↦ inr (ap reversed k)
      ],
    )
