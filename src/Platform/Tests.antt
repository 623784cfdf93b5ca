-- ===== src/Platform/Tests.antt =====
-- The theorems on the provider platform at two providers.
use wes.Base.{
  Option, drop, lookup, arith, Text, none, Bool, true, false, not, ◌&&◌, ◌==◌, some, List, [], ◌∷◌,
  ◌≡◌, ◌↔◌, ◌⊎◌, refl, ok, keep, length, find,
}
use wes.Platform.State.{AiProvider, provider_key}
use wes.Platform.Providers.{get_by_name, set_default, map_role, provider_for_employee}
use wes.Platform.Usage.{chain}
use wes.Platform.Budget.{BudgetDecision, check, daily_spend, monthly_spend}
use wes.Platform.Caps.{Fits, check-allowed}
use wes.Platform.Defaults.{DefaultSet, set_default-others}
use wes.Platform.Mapping.{map_role-provider_for_employee}
use wes.Platform.Billing.{Agrees, record_all, record_all-Agrees}
use wes.Platform.Chain.{IsOrdered, chain-IsOrdered}
use wes.Platform.Secrets.{Office, set_secret}
use wes.Platform.Cipher.{Fernet}
use wes.Platform.Runtime.{text, runtime_config}
use wes.Platform.Stowed.{secret_box, set_secret-runtime_config}
use wes.Platform.SampleCrypto.{crypto, zeros, length-zeros, digits_of, from_digits, from_digits_of}
use wes.Platform.Sample.{whole, main, spare, limits, platform, today, result, origin}

check-allowed_example :
    (d : BudgetDecision) × (check whole today 6 9 platform
      ≡ (ok d, record platform { budget = some limits }))
    × ((d.allowed ≡ true) ↔ (
        (limits.hard_stop ≡ false)
        ⊎ Fits whole limits
            (daily_spend whole today platform)
            (monthly_spend whole today platform)
            6
            9))
check-allowed_example = check-allowed whole today 6 9 platform

set_default-others_example :
    DefaultSet (find provider_key 2 platform.providers) 2 platform (set_default [] 2 platform)
set_default-others_example = set_default-others [] 2 platform

spare_named : get_by_name (109 ∷ []) platform ≡ some spare
unfolding get_by_name
spare_named = refl

map_role-provider_for_employee_example :
    ((map_role 1 (100 ∷ []) (109 ∷ []) platform).0 ≡ ok tt)
    × (provider_for_employee (some (100 ∷ [])) (map_role 1 (100 ∷ []) (109 ∷ []) platform).1
        ≡ (ok spare, (map_role 1 (100 ∷ []) (109 ∷ []) platform).1))
map_role-provider_for_employee_example =
    map_role-provider_for_employee 1 (100 ∷ []) (109 ∷ []) platform spare ((refl, tt), (tt, tt))
      spare_named refl

record_all-Agrees_example :
    Agrees whole
      (record_all whole ((today, 1, origin, result) ∷ (today, 1, origin, result) ∷ []) platform)
record_all-Agrees_example =
    record_all-Agrees whole ((today, 1, origin, result) ∷ (today, 1, origin, result) ∷ []) platform
      (λ id period key. refl)

chain-IsOrdered_example :
    (rest : List AiProvider) × (chain main platform ≡ main ∷ rest)
    × IsOrdered rest
    × ((test : AiProvider → Bool)
        → length (keep test rest)
          ≡ length (
              keep
                (λ (p : AiProvider). test p && (p.enabled && not (p.id == main.id)))
                platform.providers))
chain-IsOrdered_example = chain-IsOrdered main platform

-- "aaaaaaab"
abbrev value : Text
value = 97 ∷ 97 ∷ 97 ∷ 97 ∷ 97 ∷ 97 ∷ 97 ∷ 98 ∷ []

-- A Fernet that spells the bytes after a letter.
abbrev plain_fernet : Fernet
plain_fernet = record {
  seal = λ key bs. 103 ∷ digits_of bs;
  unseal = λ key token. from_digits (drop 1 token);
}

abbrev desk_with : Option Fernet → Office
desk_with fernet = record {
  box = secret_box crypto fernet [] (zeros 16);
  is_space = λ c. c == 32;
  dots = [];
  environment = 100 ∷ [];
  actor = [];
  now = 0;
}

set_secret-runtime_config_example :
    ((set_secret (desk_with (some plain_fernet)) 5 1 value [] none platform).0 ≡ ok tt)
    × (lookup [] (
          runtime_config
            (desk_with (some plain_fernet))
            0
            main
            (set_secret (desk_with (some plain_fernet)) 5 1 value [] none platform).1)
        ≡ some (text (some value)))
set_secret-runtime_config_example =
    set_secret-runtime_config crypto (some plain_fernet) [] (zeros 16)
      (desk_with (some plain_fernet)) 0 5 main value [] none platform refl
      (λ bs. (refl, from_digits_of bs)) (λ key message. length-zeros 32) from_digits_of refl refl tt
      refl (omega arith) refl
