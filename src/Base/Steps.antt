-- ===== src/Base/Steps.antt =====
-- What an action does to the state, from what its steps do.
use Prim.Native.Nat.{ℕ, ◌+◌, ◌≤◌}
use mathlib.Core.Path.{◌≡◌, refl, ◌∙◌, sym, subst}
use mathlib.Core.Bool.{true, false}
use native.Mathlib.Omega.{arith}
use wes.Base.Session.{is_ok, Result, ok, err, Action, ◌>>=◌}

-- The state before an action and the state after it, whether it returns or raises.
abbrev pub Moves : {S A : Type 0} → (S → S → Type 0) → Action S A → Type 0
Moves R m = (s : _) → R s (m s).1

module _ {S A B : Type 0} (P Q R : S → S → Type 0) where
  after_step :
      ((s t : S) → P s t → R s t)
      → ((s t u : S) → P s t → Q t u → R s u)
      → (k : A → Action S B) → ((a : A) → Moves Q (k a))
      → (s : S) (x : Result A × S) → P s x.1
      → R s (elim x.0 as (λ _. Result B × S) [ ok a ↦ k a x.1 | err e ↦ (err e, x.1) ]).1
  after_step stop go k h s (ok a, t) p = go s t (k a t).1 p (h a t)
  after_step stop go k h s (err e, t) p = stop s t p

  -- A step that raises is the last one.
  pub bind-Moves :
      ((s t : S) → P s t → R s t)
      → ((s t u : S) → P s t → Q t u → R s u)
      → (m : Action S A) (k : A → Action S B) → Moves P m
      → ((a : A) → Moves Q (k a))
      → Moves R (m >>= k)
  bind-Moves stop go m k hm hk s = after_step stop go k hk s (m s) (hm s)

-- An action leaves what `g` reads of the state as it is.
abbrev pub Keeps : {S A X : Type 0} → (S → X) → Action S A → Type 0
Keeps g = Moves (λ s t. g t ≡ g s)

pub bind-Keeps :
    {S A B X : Type 0} (g : S → X) (m : Action S A) (k : A → Action S B)
    → Keeps g m
    → ((a : A) → Keeps g (k a))
    → Keeps g (m >>= k)
bind-Keeps g =
    bind-Moves (λ s t. g t ≡ g s) (λ s t. g t ≡ g s) (λ s t. g t ≡ g s) (λ s t p. p)
      (λ s t u p q. q ∙ p)

-- What `f` measures of the state grows by at most `n`.
abbrev pub Spends : {S A : Type 0} → (S → ℕ) → ℕ → Action S A → Type 0
Spends f n = Moves (λ s t. f t ≤ f s + n)

pub bind-Spends :
    {S A B : Type 0} (f : S → ℕ) (a b : ℕ) (m : Action S A) (k : A → Action S B)
    → Spends f a m
    → ((x : A) → Spends f b (k x))
    → Spends f (a + b) (m >>= k)
bind-Spends f a b =
    bind-Moves (λ s t. f t ≤ f s + a) (λ s t. f t ≤ f s + b) (λ s t. f t ≤ f s + (a + b))
      (λ s t p. omega (arith, p)) (λ s t u p q. omega (arith, p, q))

-- What an action that returns has done, whatever its steps raised.
abbrev pub Returns : {S A : Type 0} → Action S A → Type 0
Returns m = (s : _) → is_ok (m s).0 ≡ true

bind_step :
    {S A B : Type 0} (R : Result B × S → Type 0) (m : Action S A) (k : A → Action S B) (s : S)
    → ((a : A) (t : S) → m s ≡ (ok a, t) → R (k a t))
    → (x : Result A × S) → m s ≡ x
    → is_ok x.0 ≡ true
    → R (elim x.0 as (λ _. Result B × S) [ ok a ↦ k a x.1 | err e ↦ (err e, x.1) ])
bind_step R m k s h (ok a, t) e r = h a t e
bind_step R m k s h (err e', t) e r = absurd (let b : false ≡ true = r in cc)

-- After a step that returns, the rest of the action.
pub bind_returns :
    {S A B : Type 0} (R : Result B × S → Type 0) (m : Action S A) (k : A → Action S B) (s : S)
    → is_ok (m s).0 ≡ true
    → ((a : A) (t : S) → m s ≡ (ok a, t) → R (k a t))
    → R ((m >>= k) s)
bind_returns R m k s r h = bind_step R m k s h (m s) refl r

pub bind-Returns :
    {S A B : Type 0} (m : Action S A) (k : A → Action S B)
    → Returns m
    → ((a : A) → Returns (k a))
    → Returns (m >>= k)
bind-Returns m k hm hk s = bind_returns (λ x. is_ok x.0 ≡ true) m k s (hm s) (λ a t e. hk a t)

ok_inj : {A : Type 0} (a b : A) → ok a ≡ ok b → a ≡ b
ok_inj a b h = cc

value_step :
    {S A B : Type 0} (R : Result B × S → Type 0) (k : A → Action S B) (a : A)
    → ((t : S) → R (k a t))
    → (x : Result A × S) → x.0 ≡ ok a
    → R (elim x.0 as (λ _. Result B × S) [ ok b ↦ k b x.1 | err e ↦ (err e, x.1) ])
value_step R k a h (ok b, t) e = subst (λ c. R (k c t)) (sym (ok_inj b a e)) (h t)
value_step R k a h (err e', t) e = absurd (let q : err e' ≡ ok a = e in cc)

-- After a step whose value is known, the rest of the action.
pub bind_value :
    {S A B : Type 0} (R : Result B × S → Type 0) (m : Action S A) (k : A → Action S B) (s : S)
    (a : A)
    → (m s).0 ≡ ok a
    → ((t : S) → R (k a t))
    → R ((m >>= k) s)
bind_value R m k s a e h = value_step R k a h (m s) e

-- After a step that is known, the rest of the action.
pub bind_known :
    {S A B : Type 0} (R : Result B × S → Type 0) (m : Action S A) (k : A → Action S B) (s : S)
    (a : A) (t : S)
    → m s ≡ (ok a, t)
    → R (k a t)
    → R ((m >>= k) s)
bind_known {S} {A} {B} R m k s a t e h =
    subst
      (λ (x : Result A × S).
        R (elim x.0 as (λ _. Result B × S) [ ok c ↦ k c x.1 | err e' ↦ (err e', x.1) ]))
      (sym e) h
