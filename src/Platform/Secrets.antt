-- ===== src/Platform/Secrets.antt =====
-- backend/app/services/secret_service.py: the credentials of providers, encrypted.
use wes.Base.{
  ℕ, Bool, ◌||◌, Option, none, some, is_some, [], ◌∷◌, ◌++◌, length, ltb, if◌then◌else◌, ◌==◌, ◌&&◌,
  Text, text_eq, codes, Action, gets, raise_if, modify_state, ◌>>=◌, ◌>>◌, raised, first, modify,
  delete, List, keep, Dict, put,
}
use wes.Platform.State.{ProviderSecret, PlatformDb, EventType, Detail, Severity}
use wes.Platform.Providers.{record_event, get}
use wes.Platform.Cipher.{mask_secret}

-- `SecretBox`: `decrypt` gives `none` where it raises.
pub record Box : Type 0 where
  pub encrypt : Text → Text
  pub decrypt : Text → Option Text

-- What the service takes from outside: the cipher, what Unicode calls a space, the bullets of a
-- hint, the active environment, the caller and the clock.
pub record Office : Type 0 where
  pub box : Box
  pub is_space : ℕ → Bool
  pub dots : Text
  pub environment : Text
  pub actor : Text
  pub now : ℕ

abbrev pub strip_left : (ℕ → Bool) → Text → Text
strip_left is_space [] = []
strip_left is_space (c ∷ t) = let rest = strip_left is_space t in if is_space c then rest else c ∷ t

abbrev pub strip_right : (ℕ → Bool) → Text → Text
strip_right is_space [] = []
strip_right is_space (c ∷ t) = elim (strip_right is_space t) [
  | [] ↦ if is_space c then [] else c ∷ []
  | d ∷ u ↦ c ∷ d ∷ u
]

-- `value.strip()`
abbrev pub strip : (ℕ → Bool) → Text → Text
strip is_space t = strip_right is_space (strip_left is_space t)

abbrev pub is_placeholder : Text → Bool
is_placeholder t =
    text_eq t (codes "changeme") || text_eq t (codes "placeholder") || text_eq t (codes "***")

-- `validate`, for a value that is a text.
abbrev pub is_refused : (ℕ → Bool) → Text → Bool
is_refused is_space value =
    ltb (length (strip is_space value)) 8 || is_placeholder (strip is_space value)

-- `environment or _now_env()`
abbrev pub environment_or : Text → Option Text → Text
environment_or current none = current
environment_or current (some []) = current
environment_or current (some (c ∷ t)) = c ∷ t

abbrev pub names_secret : ℕ → Text → Text → ProviderSecret → Bool
names_secret provider_id environment key_name r =
    r.provider_id == provider_id
    && (text_eq r.environment environment && text_eq r.key_name key_name)

abbrev pub in_environment : ℕ → Text → ProviderSecret → Bool
in_environment provider_id environment r =
    r.provider_id == provider_id && text_eq r.environment environment

abbrev pub secret_key : ProviderSecret → ℕ
secret_key r = r.id

module _ (o : Office) where
  abbrev pub env_of : Option Text → Text
  env_of environment = environment_or o.environment environment

  abbrev pub new_secret : ℕ → ℕ → Text → Text → Text → ProviderSecret
  new_secret id provider_id environment key_name value = record {
    id = id;
    provider_id = provider_id;
    environment = environment;
    key_name = key_name;
    ciphertext = o.box.encrypt value;
    hint = mask_secret o.dots value;
    last_rotated_at = none;
  }

  abbrev pub rotated : Text → ProviderSecret → ProviderSecret
  rotated value r = record r {
    ciphertext = o.box.encrypt value;
    hint = mask_secret o.dots value;
    last_rotated_at = some o.now;
  }

  -- The row that is written, for the one that was found.
  abbrev pub write_secret :
      ℕ → ℕ → Text → Text → Text → Option ProviderSecret → PlatformDb → PlatformDb
  write_secret id provider_id environment key_name value none s = record s {
    secrets = s.secrets ++ new_secret id provider_id environment key_name value ∷ [];
  }
  write_secret id provider_id environment key_name value (some r) s = record s {
    secrets = modify secret_key r.id (rotated value) s.secrets;
  }

  abbrev pub set_event : Option ProviderSecret → EventType
  set_event none = EventType.secret_set
  set_event (some r) = EventType.secret_rotated

  -- `set_secret` after the validation.
  abbrev pub store_secret : ℕ → ℕ → Text → Text → Text → Action PlatformDb (Unit {0})
  store_secret id provider_id value key_name environment = do
    found ← gets (λ s. first (names_secret provider_id environment key_name) s.secrets)
    modify_state (write_secret id provider_id environment key_name value found)
    modify_state (
        record_event o.actor provider_id (set_event found) (Detail.secret key_name environment)
          Severity.info)

  -- `set_secret`, and `rotate`, which is the same.
  unfoldable pub set_secret : ℕ → ℕ → Text → Text → Option Text → Action PlatformDb (Unit {0})
  set_secret id provider_id value key_name environment =
      raise_if (is_refused o.is_space value) raised
      >> store_secret id provider_id (strip o.is_space value) key_name (env_of environment)

  abbrev pub drop_secret : ℕ → Text → Text → Option ProviderSecret → PlatformDb → PlatformDb
  drop_secret provider_id environment key_name none s = s
  drop_secret provider_id environment key_name (some r) s =
      record_event o.actor provider_id EventType.secret_deleted (Detail.secret key_name environment)
        Severity.info (record s { secrets = delete secret_key r.id s.secrets })

  unfoldable pub delete_secret : ℕ → Text → Option Text → Action PlatformDb (Unit {0})
  delete_secret provider_id key_name environment = do
    found ← gets (λ s. first (names_secret provider_id (env_of environment) key_name) s.secrets)
    modify_state (drop_secret provider_id (env_of environment) key_name found)

  abbrev pub plaintext_of : Option ProviderSecret → Option Text
  plaintext_of none = none
  plaintext_of (some r) = o.box.decrypt r.ciphertext

  unfoldable pub get_plaintext : ℕ → Text → Option Text → PlatformDb → Option Text
  get_plaintext provider_id key_name environment s =
      plaintext_of (first (names_secret provider_id (env_of environment) key_name) s.secrets)

  abbrev pub put_opened : Text → Option Text → Dict Text → Dict Text
  put_opened key_name none out = out
  put_opened key_name (some value) out = put key_name value out

  -- The loop of `secrets_for`.
  abbrev pub open_all : List ProviderSecret → Dict Text → Dict Text
  open_all [] out = out
  open_all (r ∷ rs) out = open_all rs (put_opened r.key_name (o.box.decrypt r.ciphertext) out)

  unfoldable pub secrets_for : ℕ → Option Text → PlatformDb → Dict Text
  secrets_for provider_id environment s =
      open_all (keep (in_environment provider_id (env_of environment)) s.secrets) []

  unfoldable pub has_secret : ℕ → Text → Option Text → PlatformDb → Bool
  has_secret provider_id key_name environment s =
      is_some (first (names_secret provider_id (env_of environment) key_name) s.secrets)

  -- `ProviderService.set_secret`
  unfoldable pub set_provider_secret : ℕ → ℕ → Text → Text → Action PlatformDb (Unit {0})
  set_provider_secret id provider_id value key_name = do
    get provider_id
    set_secret id provider_id value key_name none
