-- ===== src/Platform/Usage.antt =====
-- backend/app/services/provider_platform.py: `CostEngine`, `MetricsService` and `FailoverService`.
use wes.Base.{
  ℕ, ltb_ℤ, Bool, true, false, not, ◌&&◌, ◌||◌, Option, List, [], ◌∷◌, ◌++◌, ◌+◌, keep, ltb,
  if◌then◌else◌, ◌==◌, Text, text_eq,
}
use wes.Platform.Float.{Float, FloatOps}
use wes.Platform.State.{AiProvider, ProviderUsage, ProviderBilling, Period, day, month, PlatformDb}

-- `ExecutionResult` of backend/app/providers/base.py: what a provider answers.
pub record ExecutionResult : Type 0 where
  pub output : Text
  pub model : Text
  pub prompt_tokens : ℕ
  pub completion_tokens : ℕ
  pub total_tokens : ℕ
  pub cost : Float
  pub currency : Text
  pub latency_ms : ℕ

-- The clock's day and month, by `strftime`.
pub record Today : Type 0 where
  pub day : Text
  pub month : Text

abbrev pub same_period : Period → Period → Bool
same_period day day = true
same_period month month = true
same_period _ _ = false

abbrev pub bills : ℕ → Period → Text → ProviderBilling → Bool
bills provider_id period key b =
    b.provider_id == provider_id && (same_period b.period period && text_eq b.period_key key)

-- The run, the employee and the project of a usage.
pub record Origin : Type 0 where
  pub run_id : Option ℕ
  pub ai_employee_id : Option ℕ
  pub project_id : Option ℕ

abbrev pub usage_of : Today → ℕ → Origin → ExecutionResult → ProviderUsage
usage_of today provider_id o r = record {
  provider_id = provider_id;
  run_id = o.run_id;
  ai_employee_id = o.ai_employee_id;
  project_id = o.project_id;
  model = r.model;
  prompt_tokens = r.prompt_tokens;
  completion_tokens = r.completion_tokens;
  total_tokens = r.total_tokens;
  estimated_cost = r.cost;
  actual_cost = r.cost;
  currency = r.currency;
  day = today.day;
  month = today.month;
}

module _ (ops : FloatOps) where
  -- The write of `_roll` to the row that its query found: the first that passes.
  unfoldable pub roll :
      ℕ → Period → Text → ExecutionResult → List ProviderBilling → List ProviderBilling
  roll provider_id period key r [] =
      record {
        provider_id = provider_id;
        period = period;
        period_key = key;
        tokens = r.total_tokens;
        cost = r.cost;
        currency = r.currency;
      }
      ∷ []
  roll provider_id period key r (b ∷ bs) =
      let rest = roll provider_id period key r bs in
      if bills provider_id period key b
      then record b { tokens = b.tokens + r.total_tokens; cost = ops.add b.cost r.cost } ∷ bs
      else b ∷ rest

  -- `CostEngine.record`
  unfoldable pub record_usage : Today → ℕ → Origin → ExecutionResult → PlatformDb → PlatformDb
  record_usage today provider_id o r s = record s {
    usages = s.usages ++ usage_of today provider_id o r ∷ [];
    billings = roll provider_id month today.month r (roll provider_id day today.day r s.billings);
  }

abbrev pub record_latency : ℕ → ℕ → Option ℕ → PlatformDb → PlatformDb
record_latency provider_id latency_ms run_id s = record s {
  latencies =
      s.latencies
      ++ record { provider_id = provider_id; run_id = run_id; latency_ms = latency_ms } ∷ [];
}

abbrev pub record_error : ℕ → Text → Option ℕ → PlatformDb → PlatformDb
record_error provider_id message run_id s = record s {
  errors =
      s.errors ++ record { provider_id = provider_id; run_id = run_id; message = message } ∷ [];
}

-- Python's order of two texts, the first before the second.
abbrev pub text_lt : Text → Text → Bool
text_lt s [] = false
text_lt [] (d ∷ t) = true
text_lt (c ∷ s) (d ∷ t) = ltb c d || (c == d && text_lt s t)

-- The key of the sort, `(p.priority, p.name)`: whether `p` sorts before `q`.
abbrev pub sorts_before : AiProvider → AiProvider → Bool
sorts_before p q =
    ltb_ℤ p.priority q.priority || (not (ltb_ℤ q.priority p.priority) && text_lt p.name q.name)

-- Python's stable sort, one provider after the other.
abbrev pub insert : AiProvider → List AiProvider → List AiProvider
insert p [] = p ∷ []
insert p (q ∷ qs) = let rest = insert p qs in if sorts_before q p then q ∷ rest else p ∷ q ∷ qs

unfoldable pub sort : List AiProvider → List AiProvider
sort [] = []
sort (p ∷ ps) = insert p (sort ps)

abbrev pub is_other : AiProvider → AiProvider → Bool
is_other primary p = p.enabled && not (p.id == primary.id)

-- `FailoverService.chain`
unfoldable pub chain : AiProvider → PlatformDb → List AiProvider
chain primary s = primary ∷ sort (keep (is_other primary) s.providers)
