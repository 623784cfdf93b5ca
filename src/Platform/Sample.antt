-- ===== src/Platform/Sample.antt =====
-- A database with two providers, and amounts that are whole numbers, for the tests.
use wes.Base.{◌+◌, ◌/◌, pos, true, false, not, none, some, List, [], ◌∷◌, ltb, leb, ◌==◌}
use wes.Platform.Float.{Float, FloatOps, float_0_8}
use wes.Platform.State.{AiProvider, BudgetConfig, ProviderUsage, PlatformDb}
use wes.Platform.Usage.{Today, ExecutionResult, Origin}

abbrev pub total : List Float → Float
total [] = 0
total (x ∷ xs) = x + total xs

abbrev pub whole : FloatOps
whole = record {
  add = λ a b. a + b;
  div = λ a b. a / b;
  gt = λ a b. ltb b a;
  ge = λ a b. leb b a;
  round3 = λ a. a;
  round6 = λ a. a;
  truth = λ a. not (a == 0);
  sum = total;
}

abbrev pub main : AiProvider
main = record {
  id = 1;
  name = 99 ∷ [];
  display_name = 67 ∷ [];
  enabled = true;
  is_default = true;
  default_model = none;
  active_model = none;
  priority = pos 10;
}

abbrev pub spare : AiProvider
spare = record main { id = 2; name = 109 ∷ []; is_default = false; priority = pos 5 }

abbrev pub limits : BudgetConfig
limits = record {
  daily_cost_limit = none;
  monthly_cost_limit = some 5;
  max_cost = none;
  max_tokens = none;
  warning_threshold = float_0_8;
  hard_stop = true;
  currency = [];
}

abbrev pub platform : PlatformDb
platform = record {
  providers = main ∷ spare ∷ [];
  configs = [];
  models = [];
  secrets = [];
  health = [];
  events = [];
  usages = [];
  billings = [];
  latencies = [];
  errors = [];
  budget = some limits;
}

abbrev pub today : Today
today = record { day = 49 ∷ []; month = 50 ∷ [] }

abbrev pub result : ExecutionResult
result = record {
  output = 111 ∷ [];
  model = 109 ∷ [];
  prompt_tokens = 3;
  completion_tokens = 4;
  total_tokens = 7;
  cost = 6;
  currency = [];
  latency_ms = 1;
}

abbrev pub origin : Origin
origin = record { run_id = some 1; ai_employee_id = none; project_id = none }

abbrev pub usage : ProviderUsage
usage = record {
  provider_id = 1;
  run_id = some 1;
  ai_employee_id = none;
  project_id = none;
  model = 109 ∷ [];
  prompt_tokens = 3;
  completion_tokens = 4;
  total_tokens = 7;
  estimated_cost = 6;
  actual_cost = 6;
  currency = [];
  day = 49 ∷ [];
  month = 50 ∷ [];
}
