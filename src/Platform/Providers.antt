-- ===== src/Platform/Providers.antt =====
-- backend/app/services/providers_service.py: the settings of providers, their models, and the
-- provider that runs an employee's work.
use wes.Base.{
  ℕ, ℤ, Bool, true, false, not, ◌&&◌, ◌||◌, Option, none, some, is_some, [], ◌∷◌, ◌++◌, map, keep,
  if◌then◌else◌, ◌==◌, Text, text_eq, Action, pure, gets, or_raise, raise_if, modify_state, ◌>>=◌,
  ◌>>◌, not_found, validation, raised, raise, take, first, find, modify,
}
use wes.Platform.Float.{Float}
use wes.Platform.State.{
  AiProvider, ProviderConfig, ProviderModel, HealthStatus, HealthRecord, EventType, Detail,
  Severity, PlatformDb, provider_key, unavailable,
}

-- `_ROLE_PREFIX` and the code: "role:" ++ code.
abbrev pub role_key : Text → Text
role_key code = (114 ∷ 111 ∷ 108 ∷ 101 ∷ 58 ∷ []) ++ code

-- `MetricsService.record_event`, and `_event` of the services.
abbrev pub record_event : Text → ℕ → EventType → Detail → Severity → PlatformDb → PlatformDb
record_event actor provider_id event_type detail severity s = record s {
  events =
      s.events
      ++ record {
        provider_id = provider_id;
        event_type = event_type;
        actor = actor;
        detail = detail;
        severity = severity;
      }
        ∷ [];
}

abbrev pub write_provider : ℕ → (AiProvider → AiProvider) → PlatformDb → PlatformDb
write_provider id f s = record s { providers = modify provider_key id f s.providers }

-- `get`
unfoldable pub get : ℕ → Action PlatformDb AiProvider
get id = do found ← gets (λ s. find provider_key id s.providers); or_raise found not_found

unfoldable pub get_by_name : Text → PlatformDb → Option AiProvider
get_by_name name s = first (λ (p : AiProvider). text_eq p.name name) s.providers

unfoldable pub default_provider : PlatformDb → Option AiProvider
default_provider s = first (λ (p : AiProvider). p.is_default) s.providers

abbrev pub has_code : ℕ → Text → ProviderModel → Bool
has_code provider_id code m = m.provider_id == provider_id && text_eq m.code code

-- What a call of `add_model` gives, beside the provider and the code.
pub record ModelDraft : Type 0 where
  pub display_name : Text
  pub is_default : Bool
  pub context_window : Option ℕ
  pub input_cost_per_1k : Float
  pub output_cost_per_1k : Float

abbrev pub new_model : ℕ → ℕ → Text → ModelDraft → ProviderModel
new_model id provider_id code d = record {
  id = id;
  provider_id = provider_id;
  code = code;
  display_name = d.display_name;
  is_default = d.is_default;
  enabled = true;
  context_window = d.context_window;
  input_cost_per_1k = d.input_cost_per_1k;
  output_cost_per_1k = d.output_cost_per_1k;
}

abbrev pub activate : Bool → Text → AiProvider → AiProvider
activate true code p = record p { active_model = some code }
activate false code p = p

-- `add_model`, for the model of that code that `existing` finds.
unfoldable pub add_new_model :
    ℕ → ℕ → Text → ModelDraft → AiProvider → Option ProviderModel → Action PlatformDb ProviderModel
add_new_model id provider_id code d provider (some existing) = pure existing
add_new_model id provider_id code d provider none = do
  modify_state (λ s. record s { models = s.models ++ new_model id provider_id code d ∷ [] })
  modify_state (
      write_provider provider_id
        (activate (d.is_default || not (is_some provider.active_model)) code))
  pure (new_model id provider_id code d)

unfoldable pub add_model : ℕ → ℕ → Text → ModelDraft → Action PlatformDb ProviderModel
add_model id provider_id code d = do
  provider ← get provider_id
  existing ← gets (λ s. first (has_code provider_id code) s.models)
  add_new_model id provider_id code d provider existing

-- The loop of `set_default` over every provider.
abbrev pub mark_default : ℕ → AiProvider → AiProvider
mark_default id other = record other { is_default = other.id == id }

module _ (actor : Text) where
  unfoldable pub set_active_model : ℕ → Text → Action PlatformDb (Unit {0})
  set_active_model provider_id code = do
    get provider_id
    modify_state (write_provider provider_id (λ p. record p { active_model = some code }))
    modify_state
        (record_event actor provider_id EventType.model_selected (Detail.model code) Severity.info)

  unfoldable pub set_priority : ℕ → ℤ → Action PlatformDb (Unit {0})
  set_priority provider_id priority = do
    get provider_id
    modify_state (write_provider provider_id (λ p. record p { priority = priority }))
    modify_state (
        record_event actor provider_id EventType.failover_priority (Detail.priority priority)
          Severity.info)

  unfoldable pub set_enabled : ℕ → Bool → Action PlatformDb (Unit {0})
  set_enabled provider_id enabled = do
    p ← get provider_id
    modify_state (write_provider provider_id (λ r. record r { enabled = enabled }))
    modify_state (
        record_event actor p.id
          (if enabled then EventType.provider_enabled else EventType.provider_disabled)
          (Detail.provider_name p.name) Severity.info)

  unfoldable pub set_default : ℕ → Action PlatformDb (Unit {0})
  set_default provider_id = do
    p ← get provider_id
    raise_if (not p.enabled) validation
    modify_state (λ s. record s { providers = map (mark_default p.id) s.providers })
    modify_state (
        record_event actor p.id EventType.provider_default (Detail.provider_name p.name)
          Severity.info)

abbrev pub names_setting : ℕ → Text → ProviderConfig → Bool
names_setting provider_id key c = c.provider_id == provider_id && text_eq c.key key

abbrev pub config_key : ProviderConfig → ℕ
config_key c = c.id

abbrev pub write_config :
    ℕ → ℕ → Text → Option Text → Option ProviderConfig → PlatformDb → PlatformDb
write_config id provider_id key value none s = record s {
  configs =
      s.configs ++ record { id = id; provider_id = provider_id; key = key; value = value } ∷ [];
}
write_config id provider_id key value (some row) s = record s {
  configs = modify config_key row.id (λ c. record c { value = value }) s.configs;
}

unfoldable pub set_config : ℕ → ℕ → Text → Option Text → Action PlatformDb (Unit {0})
set_config id provider_id key value = do
  p ← get provider_id
  row ← gets (λ s. first (names_setting p.id key) s.configs)
  modify_state (write_config id p.id key value row)

-- `map_role`
abbrev pub has_key : Text → ProviderConfig → Bool
has_key key c = text_eq c.key key

abbrev pub replace_role : ℕ → Text → AiProvider → PlatformDb → PlatformDb
replace_role id code provider s = record s {
  configs =
      keep (λ c. not (has_key (role_key code) c)) s.configs
      ++ record { id = id; provider_id = provider.id; key = role_key code; value = some code } ∷ [];
}

unfoldable pub map_role : ℕ → Text → Text → Action PlatformDb (Unit {0})
map_role id code name = do
  found ← gets (get_by_name name)
  provider ← or_raise found validation
  modify_state (replace_role id code provider)

-- The provider that the configuration names for a role, if it is enabled.
abbrev pub enabled_only : Option AiProvider → Option AiProvider
enabled_only none = none
enabled_only (some p) = if p.enabled then some p else none

unfoldable pub mapped_provider : Text → PlatformDb → Option AiProvider
mapped_provider code s = elim (first (has_key (role_key code)) s.configs) [
  | none ↦ none
  | some c ↦ enabled_only (find provider_key c.provider_id s.providers)
]

abbrev pub role_provider : Option Text → PlatformDb → Option AiProvider
role_provider none s = none
role_provider (some code) s = mapped_provider code s

abbrev pub or_default : Option AiProvider → Action PlatformDb AiProvider
or_default (some p) = pure p
or_default none = do found ← gets default_provider; or_raise found validation

-- `provider_for_employee`, for the code of the employee's role if the role exists.
unfoldable pub provider_for_employee : Option Text → Action PlatformDb AiProvider
provider_for_employee role_code = do chosen ← gets (role_provider role_code); or_default chosen

-- `instance.test_connection()` and `instance.health()`: the status and the detail, or an exception
-- with its text.
pub data Probe : Type 0 where
  probed : HealthStatus → Option Text → Probe
  broken : Text → Probe

abbrev pub health_of : ℕ → Probe → HealthRecord
health_of id (probed status detail) = record { provider_id = id; status = status; detail = detail }
health_of id (broken text) = record { provider_id = id; status = unavailable; detail = some text }

abbrev pub add_health : HealthRecord → PlatformDb → PlatformDb
add_health h s = record s { health = s.health ++ h ∷ [] }

-- `detail[:120]`, which raises on `None`.
abbrev pub shorten : Option Text → Action PlatformDb Text
shorten none = raise raised
shorten (some text) = pure (take 120 text)

unfoldable pub test_connection : Text → ℕ → (AiProvider → Probe) → Action PlatformDb (Unit {0})
test_connection actor provider_id probe = do
  p ← get provider_id
  modify_state (add_health (health_of p.id (probe p)))
  detail ← shorten (health_of p.id (probe p)).detail
  modify_state (
      record_event actor p.id EventType.connection_tested
        (Detail.tested (health_of p.id (probe p)).status detail) Severity.info)
