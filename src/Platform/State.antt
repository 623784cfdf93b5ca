-- ===== src/Platform/State.antt =====
-- backend/app/models/provider_platform.py and the tables of providers of
-- backend/app/models/orchestration.py. Identifiers are numbers, a row's time of creation is left
-- out where no code reads it, and so are the identifiers of the rows of a log. A text that the
-- code formats is the constructor with the values it shows.
use wes.Base.{ℕ, ℤ, Bool, Option, List, Text}
use wes.Platform.Float.{Float}

pub record AiProvider : Type 0 where
  pub id : ℕ
  pub name : Text
  pub display_name : Text
  pub enabled : Bool
  pub is_default : Bool
  pub default_model : Option Text
  pub active_model : Option Text
  pub priority : ℤ

-- A key is a setting's, or `role:` and the code of a role.
pub record ProviderConfig : Type 0 where
  pub id : ℕ
  pub provider_id : ℕ
  pub key : Text
  pub value : Option Text

pub record ProviderModel : Type 0 where
  pub id : ℕ
  pub provider_id : ℕ
  pub code : Text
  pub display_name : Text
  pub is_default : Bool
  pub enabled : Bool
  pub context_window : Option ℕ
  pub input_cost_per_1k : Float
  pub output_cost_per_1k : Float

pub record ProviderSecret : Type 0 where
  pub id : ℕ
  pub provider_id : ℕ
  pub environment : Text
  pub key_name : Text
  pub ciphertext : Text
  pub hint : Option Text
  pub last_rotated_at : Option ℕ

pub data HealthStatus : Type 0 where
  healthy degraded unavailable : HealthStatus

pub record HealthRecord : Type 0 where
  pub provider_id : ℕ
  pub status : HealthStatus
  pub detail : Option Text

-- Why the budget refuses a run, with the estimate and the limit that the text shows.
pub data Reason : Type 0 where
  over_max_cost : Float → Float → Reason
  over_max_tokens : ℕ → ℤ → Reason
  over_daily over_monthly : Float → Reason

pub data EventType : Type 0 where
  model_selected failover_priority connection_tested provider_enabled provider_disabled
        provider_default secret_set secret_rotated secret_deleted rate_limited budget_blocked
        failover_switched founder_notified :
      EventType

pub data Detail : Type 0 where
  model : Text → Detail
  priority : ℤ → Detail
  tested : HealthStatus → Text → Detail
  provider_name : Text → Detail
  secret : Text → Text → Detail
  message : Option Text → Detail
  refused : Option Reason → Detail
  blocked : Option Reason → Detail
  failed_over : Text → Text → Detail
  all_failed : Option Text → Detail

pub data Severity : Type 0 where
  info warning : Severity

pub record ProviderEvent : Type 0 where
  pub provider_id : ℕ
  pub event_type : EventType
  pub actor : Text
  pub detail : Detail
  pub severity : Severity

pub record ProviderUsage : Type 0 where
  pub provider_id : ℕ
  pub run_id : Option ℕ
  pub ai_employee_id : Option ℕ
  pub project_id : Option ℕ
  pub model : Text
  pub prompt_tokens : ℕ
  pub completion_tokens : ℕ
  pub total_tokens : ℕ
  pub estimated_cost : Float
  pub actual_cost : Float
  pub currency : Text
  pub day : Text
  pub month : Text

pub data Period : Type 0 where
  day month : Period

pub record ProviderBilling : Type 0 where
  pub provider_id : ℕ
  pub period : Period
  pub period_key : Text
  pub tokens : ℕ
  pub cost : Float
  pub currency : Text

pub record ProviderLatency : Type 0 where
  pub provider_id : ℕ
  pub run_id : Option ℕ
  pub latency_ms : ℕ

pub record ProviderErrorLog : Type 0 where
  pub provider_id : ℕ
  pub run_id : Option ℕ
  pub message : Text

-- The row of `budget_configs` whose scope is "global".
pub record BudgetConfig : Type 0 where
  pub daily_cost_limit : Option Float
  pub monthly_cost_limit : Option Float
  pub max_cost : Option Float
  pub max_tokens : Option ℤ
  pub warning_threshold : Float
  pub hard_stop : Bool
  pub currency : Text

pub record PlatformDb : Type 0 where
  pub providers : List AiProvider
  pub configs : List ProviderConfig
  pub models : List ProviderModel
  pub secrets : List ProviderSecret
  pub health : List HealthRecord
  pub events : List ProviderEvent
  pub usages : List ProviderUsage
  pub billings : List ProviderBilling
  pub latencies : List ProviderLatency
  pub errors : List ProviderErrorLog
  pub budget : Option BudgetConfig

abbrev pub provider_key : AiProvider → ℕ
provider_key p = p.id
