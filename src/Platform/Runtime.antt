-- ===== src/Platform/Runtime.antt =====
-- backend/app/services/providers_service.py: the configuration that an adapter is made with.
use wes.Base.{
  ℕ, Bool, not, ◌==◌, ◌&&◌, Option, none, some, List, [], ◌∷◌, if◌then◌else◌, is_nonempty, Text,
  codes, startswith, keep, Dict, put, put_all, setdefault,
}
use wes.Platform.Float.{Float}
use wes.Platform.State.{AiProvider, ProviderConfig, PlatformDb}
use wes.Platform.Secrets.{Office, secrets_for}

-- A value of the configuration: a text or null, or the timeout.
pub data Setting : Type 0 where
  text : Option Text → Setting
  seconds : Float → Setting

-- A setting of the provider, and not the mapping of a role.
abbrev pub is_setting : ℕ → ProviderConfig → Bool
is_setting id c = c.provider_id == id && not (startswith (codes "role:") c.key)

abbrev pub settings_of : List ProviderConfig → Dict Setting → Dict Setting
settings_of [] out = out
settings_of (c ∷ cs) out = settings_of cs (put c.key (text c.value) out)

unfoldable pub config_dict : AiProvider → PlatformDb → Dict Setting
config_dict p s = settings_of (keep (is_setting p.id) s.configs) []

abbrev pub as_settings : Dict Text → Dict Setting
as_settings [] = []
as_settings ((k, v) ∷ d) = (k, text (some v)) ∷ as_settings d

-- `if provider.active_model: cfg.setdefault("model", provider.active_model)`
abbrev pub with_model : Option Text → Dict Setting → Dict Setting
with_model none d = d
with_model (some m) d = if is_nonempty m then setdefault (codes "model") (text (some m)) d else d

unfoldable pub runtime_config : Office → Float → AiProvider → PlatformDb → Dict Setting
runtime_config o timeout p s = setdefault (codes "timeout") (seconds timeout) (
    with_model p.active_model (put_all (config_dict p s) (as_settings (secrets_for o p.id none s))))
