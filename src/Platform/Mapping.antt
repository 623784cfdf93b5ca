-- ===== src/Platform/Mapping.antt =====
-- The provider that a role is mapped to, as an employee of that role finds it.
use wes.Base.{
  ℕ, Bool, true, not, none, some, List, [], ◌∷◌, ◌≡◌, inl, inr, refl, arith, keep, Bool-cases, Text,
  text_eq, text_eq_iff, ok, first, first-append_none, find, find_of_first, UniqueKeys,
}
use wes.Platform.State.{AiProvider, ProviderConfig, PlatformDb, provider_key}
use wes.Platform.Providers.{
  get_by_name, map_role, replace_role, provider_for_employee, mapped_provider, role_key, has_key,
}

first-keep-not :
    {A : Type 0} (p : A → Bool) (xs : List A) → first p (keep (λ x. not (p x)) xs) ≡ none
first-keep-not p [] = refl
first-keep-not p (x ∷ xs) = elim (Bool-cases (p x)) [
  | inl e ↦ rw e (first-keep-not p xs)
  | inr e ↦ rw (e, e) (first-keep-not p xs)
]

abbrev role_config : ℕ → Text → AiProvider → ProviderConfig
role_config id code p = record {
  id = id;
  provider_id = p.id;
  key = role_key code;
  value = some code;
}

role_config_found :
    (id : ℕ) (code : Text) (p : AiProvider) (s : PlatformDb)
    → first (has_key (role_key code)) (replace_role id code p s).configs
      ≡ some (role_config id code p)
role_config_found id code p s =
    rw
      (
        first-append_none (has_key (role_key code))
            (keep (λ c. not (has_key (role_key code) c)) s.configs) (role_config id code p ∷ [])
            (first-keep-not (has_key (role_key code)) s.configs),
        (text_eq_iff (role_key code) (role_key code)).1 refl,
      )
      refl

mapped_provider_lem :
    (id : ℕ) (code : Text) (p : AiProvider) (s : PlatformDb)
    → find provider_key p.id s.providers ≡ some p
    → p.enabled ≡ true
    → mapped_provider code (replace_role id code p s) ≡ some p
unfolding mapped_provider
mapped_provider_lem id code p s h e =
    rw (mapped_provider, role_config_found id code p s) (rw (h, e) refl)

map_role_ok :
    (id : ℕ) (code name : Text) (s : PlatformDb) (p : AiProvider)
    → get_by_name name s ≡ some p
    → map_role id code name s ≡ (ok tt, replace_role id code p s)
unfolding map_role
map_role_ok id code name s p h = ground arith

-- After a role is mapped to an enabled provider, by its name, an employee of the role gets that
-- provider, whatever the role was mapped to before, if the providers' keys are unique.
pub map_role-provider_for_employee :
    (id : ℕ) (code name : Text) (s : PlatformDb) (p : AiProvider)
    → UniqueKeys provider_key s.providers
    → get_by_name name s ≡ some p
    → p.enabled ≡ true
    → ((map_role id code name s).0 ≡ ok tt)
      × (provider_for_employee (some code) (map_role id code name s).1
          ≡ (ok p, (map_role id code name s).1))
unfolding get_by_name provider_for_employee
map_role-provider_for_employee id code name s p u h e = rw (map_role_ok id code name s p h) (
  refl,
  rw
      (mapped_provider_lem id code p s
        (find_of_first provider_key (λ q. text_eq q.name name) p s.providers u h) e)
      refl,
)
