-- ===== src/Platform/Caps.antt =====
-- When the budget lets a run start.
use wes.Base.{
  ℕ, ℤ, pos, negsuc, ltb_ℤ, ◌≤ℤ◌, Bool, true, false, not, ◌||◌, is_some, Option, none, some, ◌≡◌,
  ◌↔◌, ◌⊎◌, inl, inr, refl, arith, Bool-cases, ok,
}
use wes.Platform.Float.{Float, FloatOps}
use wes.Platform.State.{BudgetConfig, Reason, PlatformDb}
use wes.Platform.Usage.{Today}
use wes.Platform.Budget.{
  BudgetDecision, cap, reason_of, decide, check, get_config, daily_spend, monthly_spend,
  or_default_config,
}

-- A limit that is set is not passed.
abbrev pub Within : {L : Type 0} → (L → Type 0) → Option L → Type 0
Within P none = Unit
Within P (some limit) = P limit

cap-none :
    {L : Type 0} (over : L → Bool) (P : L → Type 0) (why : L → Reason) (limit : Option L)
    (reason : Option Reason)
    → ((l : L) → (over l ≡ false) ↔ P l)
    → (cap over why limit reason ≡ none) ↔ (Within P limit × (reason ≡ none))
cap-none over P why none reason h = (λ e. (tt, e), λ e. e.1)
cap-none over P why (some l) reason h = elim (Bool-cases (over l)) [
  | inl e ↦ rw e (
    λ bad. absurd (let b : some (why l) ≡ none = bad in cc),
    λ p. absurd (let f : over l ≡ false = (h l).1 p.0 in cc),
  )
  | inr e ↦ rw e (λ r. ((h l).0 e, r), λ p. p.1)
]

not_ltb : (a : ℤ) (b : ℤ) → (ltb_ℤ a b ≡ false) ↔ (b ≤ℤ a)
not_ltb (pos m) (pos n) = ground arith
not_ltb (pos m) (negsuc n) = ground arith
not_ltb (negsuc m) (pos n) = ground arith
not_ltb (negsuc m) (negsuc n) = ground arith

and_iff : {A B P Q : Type 0} → (A ↔ (P × B)) → (B ↔ Q) → A ↔ (P × Q)
and_iff h k = (λ a. ((h.0 a).0, k.0 (h.0 a).1), λ p. h.1 (p.0, k.1 p.1))

and_true : {A P : Type 0} {L : Type 0} {x : L} → (A ↔ (P × (x ≡ x))) → A ↔ P
and_true h = (λ a. (h.0 a).0, λ p. h.1 (p, refl))

allowed_iff :
    {P : Type 0} (hard_stop : Bool) (reason : Option Reason)
    → ((reason ≡ none) ↔ P)
    → ((not (is_some reason) || not hard_stop) ≡ true) ↔ ((hard_stop ≡ false) ⊎ P)
allowed_iff true none h = (λ e. inr (h.0 refl), λ p. refl)
allowed_iff false none h = (λ e. inl refl, λ p. refl)
allowed_iff false (some r) h = (λ e. inl refl, λ p. refl)
allowed_iff true (some r) h = (
  λ e. absurd (let b : false ≡ true = e in cc),
  λ p. elim p [ inl e ↦ cc | inr q ↦ absurd (let b : some r ≡ none = h.1 q in cc) ],
)

module _ (ops : FloatOps) where
  -- The estimates of a run, and the spending with them, pass no limit that is set.
  abbrev pub Fits : BudgetConfig → Float → Float → Float → ℕ → Type 0
  Fits cfg daily monthly cost tokens =
      Within (λ l. ops.gt (ops.add monthly cost) l ≡ false) cfg.monthly_cost_limit
      × (Within (λ l. ops.gt (ops.add daily cost) l ≡ false) cfg.daily_cost_limit
          × (Within (λ l. pos tokens ≤ℤ l) cfg.max_tokens
              × Within (λ l. ops.gt cost l ≡ false) cfg.max_cost))

  reason_of-none :
      (cfg : BudgetConfig) (daily monthly cost : Float) (tokens : ℕ)
      → (reason_of ops cfg daily monthly cost tokens ≡ none) ↔ Fits cfg daily monthly cost tokens
  unfolding reason_of
  reason_of-none cfg daily monthly cost tokens =
      and_iff
        (cap-none _ (λ l. ops.gt (ops.add monthly cost) l ≡ false) _ cfg.monthly_cost_limit _
          (λ l. (λ e. e, λ e. e)))
        (and_iff
          (cap-none _ (λ l. ops.gt (ops.add daily cost) l ≡ false) _ cfg.daily_cost_limit _
            (λ l. (λ e. e, λ e. e)))
          (and_iff
            (cap-none _ (λ l. pos tokens ≤ℤ l) _ cfg.max_tokens _ (λ l. not_ltb l (pos tokens)))
            (and_true (
              cap-none _ (λ l. ops.gt cost l ≡ false) _ cfg.max_cost none
                (λ l. (λ e. e, λ e. e))))))

  -- Whatever the limits, the spending and the estimates, `check` answers, keeps the budget that it
  -- finds or adds, and allows the run exactly if the hard stop is off or the run fits: its cost and
  -- tokens are at most the limits of a run, and the spending of the day and of the month with the
  -- cost at most theirs, where a limit that is not set bounds nothing.
  pub check-allowed :
      (today : Today) (cost : Float) (tokens : ℕ) (s : PlatformDb)
      → (d : BudgetDecision) × (check ops today cost tokens s
          ≡ (ok d, record s { budget = some (or_default_config s.budget) }))
        × ((d.allowed ≡ true) ↔ (
            ((or_default_config s.budget).hard_stop ≡ false)
            ⊎ Fits
                (or_default_config s.budget)
                (daily_spend ops today s)
                (monthly_spend ops today s)
                cost
                tokens))
  unfolding check get_config
  check-allowed today cost tokens s =
      let cfg = or_default_config s.budget in
      (
        decide ops cfg (daily_spend ops today s) (monthly_spend ops today s) cost tokens,
        refl,
        allowed_iff cfg.hard_stop _
            (reason_of-none cfg (daily_spend ops today s) (monthly_spend ops today s) cost tokens),
      )
