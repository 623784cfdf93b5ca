-- ===== src/Platform/Budget.antt =====
-- backend/app/services/budget_service.py: the limits on spending, and the check before a run.
use wes.Base.{
  ℕ, ℤ, pos, ltb_ℤ, Bool, true, false, not, ◌&&◌, ◌||◌, Option, none, some, is_some, [], ◌∷◌, keep,
  map, if◌then◌else◌, Text, text_eq, Action, pure, gets, modify_state, ◌>>=◌, ◌>>◌,
}
use wes.Platform.Float.{Float, FloatOps, float_0_8, float_zero}
use wes.Platform.State.{
  ProviderUsage, BudgetConfig, Reason, over_max_cost, over_max_tokens, over_daily, over_monthly,
  PlatformDb,
}
use wes.Platform.Usage.{Today}

-- `BudgetConfig(scope="global")`, with the column defaults.
abbrev pub default_config : BudgetConfig
default_config = record {
  daily_cost_limit = none;
  monthly_cost_limit = none;
  max_cost = none;
  max_tokens = none;
  warning_threshold = float_0_8;
  hard_stop = true;
  currency = 85 ∷ 83 ∷ 68 ∷ [];
}

abbrev pub or_default_config : Option BudgetConfig → BudgetConfig
or_default_config (some cfg) = cfg
or_default_config none = default_config

-- `get_config`
unfoldable pub get_config : Action PlatformDb BudgetConfig
get_config = do
  cfg ← gets (λ s. or_default_config s.budget)
  modify_state (λ s. record s { budget = some cfg })
  pure cfg

-- The arguments of `update_config`; `None` leaves a field as it is.
pub record BudgetFields : Type 0 where
  pub daily_cost_limit : Option Float
  pub monthly_cost_limit : Option Float
  pub max_cost : Option Float
  pub max_tokens : Option ℤ
  pub warning_threshold : Option Float
  pub hard_stop : Option Bool
  pub currency : Option Text

abbrev pub set_field : {A : Type 0} → Option A → A → A
set_field (some value) old = value
set_field none old = old

abbrev pub set_limit : {A : Type 0} → Option A → Option A → Option A
set_limit (some value) old = some value
set_limit none old = old

abbrev pub with_fields : BudgetFields → BudgetConfig → BudgetConfig
with_fields f cfg = record {
  daily_cost_limit = set_limit f.daily_cost_limit cfg.daily_cost_limit;
  monthly_cost_limit = set_limit f.monthly_cost_limit cfg.monthly_cost_limit;
  max_cost = set_limit f.max_cost cfg.max_cost;
  max_tokens = set_limit f.max_tokens cfg.max_tokens;
  warning_threshold = set_field f.warning_threshold cfg.warning_threshold;
  hard_stop = set_field f.hard_stop cfg.hard_stop;
  currency = set_field f.currency cfg.currency;
}

unfoldable pub update_config : BudgetFields → Action PlatformDb BudgetConfig
update_config f = do
  cfg ← get_config
  modify_state (λ s. record s { budget = some (with_fields f cfg) })
  pure (with_fields f cfg)

pub record BudgetDecision : Type 0 where
  pub allowed : Bool
  pub reason : Option Reason
  pub warning : Bool
  pub daily_spent : Float
  pub monthly_spent : Float

-- What `status` returns, beside the configuration.
pub record BudgetStatus : Type 0 where
  pub daily_spent : Float
  pub monthly_spent : Float
  pub daily_pct : Float
  pub monthly_pct : Float
  pub warning : Bool
  pub exceeded : Bool
  pub hard_stop_active : Bool

-- `if limit is not None and over(limit): reason = ...`
abbrev pub cap : {L : Type 0} → (L → Bool) → (L → Reason) → Option L → Option Reason → Option Reason
cap over why none reason = reason
cap over why (some limit) reason = if over limit then some (why limit) else reason

module _ (ops : FloatOps) where
  abbrev pub spend : (ProviderUsage → Bool) → PlatformDb → Float
  spend p s = ops.sum (map (λ (u : ProviderUsage). u.estimated_cost) (keep p s.usages))

  abbrev pub daily_spend : Today → PlatformDb → Float
  daily_spend today = spend (λ u. text_eq u.day today.day)

  abbrev pub monthly_spend : Today → PlatformDb → Float
  monthly_spend today = spend (λ u. text_eq u.month today.month)

  -- `cfg.warning_threshold or 0.8`
  abbrev pub threshold : BudgetConfig → Float
  threshold cfg = if ops.truth cfg.warning_threshold then cfg.warning_threshold else float_0_8

  -- The four tests of `check`: a later reason takes the place of an earlier one.
  unfoldable pub reason_of : BudgetConfig → Float → Float → Float → ℕ → Option Reason
  reason_of cfg daily monthly cost tokens =
      cap (λ l. ops.gt (ops.add monthly cost) l) over_monthly cfg.monthly_cost_limit
        (cap (λ l. ops.gt (ops.add daily cost) l) over_daily cfg.daily_cost_limit
          (cap (λ l. ltb_ℤ l (pos tokens)) (over_max_tokens tokens) cfg.max_tokens
            (cap (λ l. ops.gt cost l) (over_max_cost cost) cfg.max_cost none)))

  -- `if limit: ... spent / limit >= thr`
  abbrev pub near : Option Float → Float → Float → Bool
  near none spent thr = false
  near (some limit) spent thr = ops.truth limit && ops.ge (ops.div spent limit) thr

  abbrev pub decide : BudgetConfig → Float → Float → Float → ℕ → BudgetDecision
  decide cfg daily monthly cost tokens = record {
    allowed = not (is_some (reason_of cfg daily monthly cost tokens)) || not cfg.hard_stop;
    reason = reason_of cfg daily monthly cost tokens;
    warning =
        near cfg.daily_cost_limit (ops.add daily cost) (threshold cfg)
        || near cfg.monthly_cost_limit (ops.add monthly cost) (threshold cfg);
    daily_spent = ops.round6 daily;
    monthly_spent = ops.round6 monthly;
  }

  unfoldable pub check : Today → Float → ℕ → Action PlatformDb BudgetDecision
  check today cost tokens = do
    cfg ← get_config
    daily ← gets (daily_spend today)
    monthly ← gets (monthly_spend today)
    pure (decide cfg daily monthly cost tokens)

  abbrev pub pct : Float → Option Float → Float
  pct spent none = float_zero
  pct spent (some limit) = if ops.truth limit then ops.round3 (ops.div spent limit) else float_zero

  -- `limit and spent >= limit`
  abbrev pub reaches : Option Float → Float → Bool
  reaches none spent = false
  reaches (some limit) spent = ops.truth limit && ops.ge spent limit

  -- `limit and share >= thr`
  abbrev pub warns : Option Float → Float → Float → Bool
  warns none share thr = false
  warns (some limit) share thr = ops.truth limit && ops.ge share thr

  abbrev pub is_exceeded : BudgetConfig → Float → Float → Bool
  is_exceeded cfg daily monthly =
      reaches cfg.daily_cost_limit daily || reaches cfg.monthly_cost_limit monthly

  abbrev pub status_of : BudgetConfig → Float → Float → BudgetStatus
  status_of cfg daily monthly = record {
    daily_spent = ops.round6 daily;
    monthly_spent = ops.round6 monthly;
    daily_pct = pct daily cfg.daily_cost_limit;
    monthly_pct = pct monthly cfg.monthly_cost_limit;
    warning =
        warns cfg.daily_cost_limit (pct daily cfg.daily_cost_limit) (threshold cfg)
        || warns cfg.monthly_cost_limit (pct monthly cfg.monthly_cost_limit) (threshold cfg);
    exceeded = is_exceeded cfg daily monthly;
    hard_stop_active = is_exceeded cfg daily monthly && cfg.hard_stop;
  }

  unfoldable pub status : Today → Action PlatformDb BudgetStatus
  status today = do
    cfg ← get_config
    daily ← gets (daily_spend today)
    monthly ← gets (monthly_spend today)
    pure (status_of cfg daily monthly)
