-- ===== src/Platform/Defaults.antt =====
-- The default provider, and the provider that a role is mapped to.
use wes.Base.{
  ℕ, Bool, true, false, Option, none, some, List, [], ◌∷◌, ◌≡◌, inl, inr, refl, map, arith, subst,
  sym, key_of_find, All, Bool-cases, Option-cases, ◌==◌, Text, ok, err, some_inj, ap, Result,
  not_found, validation, first, find,
}
use wes.Platform.State.{AiProvider, PlatformDb, provider_key, EventType, Detail, Severity}
use wes.Platform.Providers.{get, record_event, set_default, mark_default, default_provider}

-- A provider is the default exactly if its key is `id`.
abbrev pub DefaultIs : ℕ → AiProvider → Type 0
DefaultIs id p = p.is_default ≡ (p.id == id)

mark_default-DefaultIs :
    (id : ℕ) (t : List AiProvider) → All (DefaultIs id) (map (mark_default id) t)
mark_default-DefaultIs id [] = tt
mark_default-DefaultIs id (p ∷ t) = (refl, mark_default-DefaultIs id t)

first_default :
    (id : ℕ) (t : List AiProvider) (p : AiProvider)
    → find provider_key id t ≡ some p
    → first (λ (q : AiProvider). q.is_default) (map (mark_default id) t)
      ≡ some (record p { is_default = true })
first_default id [] p h = cc
first_default id (q ∷ t) p h = elim (Bool-cases (q.id == id)) [
  | inl e ↦
      let same : q ≡ p = some_inj q p (rw e at h) in
      rw e (ap (λ (x : AiProvider). some (record x { is_default = true })) same)
  | inr e ↦ rw e (first_default id t p (rw e at h))
]

-- How `set_default` ends for a provider, by whether it is enabled.
abbrev pub DefaultMade :
    Bool → AiProvider → ℕ → PlatformDb → Result (Unit {0}) × PlatformDb → Type 0
DefaultMade false p id s ended = ended ≡ (err validation, s)
DefaultMade true p id s ended =
    (ended.0 ≡ ok tt)
    × (default_provider ended.1 ≡ some (record p { is_default = true }))
    × All (DefaultIs id) ended.1.providers

abbrev pub DefaultSet : Option AiProvider → ℕ → PlatformDb → Result (Unit {0}) × PlatformDb → Type 0
DefaultSet none id s ended = ended ≡ (err not_found, s)
DefaultSet (some p) id s ended = DefaultMade p.enabled p id s ended

set_default_missing :
    (actor : Text) (id : ℕ) (s : PlatformDb)
    → find provider_key id s.providers ≡ none
    → set_default actor id s ≡ (err not_found, s)
unfolding set_default get
set_default_missing actor id s e = ground arith

set_default_disabled :
    (actor : Text) (id : ℕ) (s : PlatformDb) (p : AiProvider)
    → find provider_key id s.providers ≡ some p
    → p.enabled ≡ false
    → set_default actor id s ≡ (err validation, s)
unfolding set_default get
set_default_disabled actor id s p h e = ground arith

set_default_enabled :
    (actor : Text) (id : ℕ) (s : PlatformDb) (p : AiProvider)
    → find provider_key id s.providers ≡ some p
    → p.enabled ≡ true
    → set_default actor id s ≡ (
      ok tt,
      record_event actor p.id EventType.provider_default
          (Detail.provider_name p.name)
          Severity.info
          (record s { providers = map (mark_default p.id) s.providers }),
    )
unfolding set_default get
set_default_enabled actor id s p h e = ground arith

set_default-DefaultMade :
    (actor : Text) (id : ℕ) (s : PlatformDb) (p : AiProvider) (b : Bool)
    → find provider_key id s.providers ≡ some p
    → p.enabled ≡ b
    → DefaultMade b p id s (set_default actor id s)
unfolding default_provider
set_default-DefaultMade actor id s p true h e =
    let k : id ≡ p.id = sym (key_of_find provider_key id p s.providers h) in
    rw (set_default_enabled actor id s p h e) (
      refl,
      subst
          (λ j.
            first (λ (q : AiProvider). q.is_default) (map (mark_default j) s.providers)
            ≡ some (record p { is_default = true }))
          k (first_default id s.providers p h),
      subst (λ j. All (DefaultIs id) (map (mark_default j) s.providers)) k
          (mark_default-DefaultIs id s.providers),
    )
set_default-DefaultMade actor id s p false h e = set_default_disabled actor id s p h e

-- Making a provider the default: if it does not exist, or is not enabled, the call is refused and
-- nothing changes; otherwise it is the provider that `default_provider` finds, and every provider
-- is marked as the default exactly if it has that key.
pub set_default-others :
    (actor : Text) (id : ℕ) (s : PlatformDb)
    → DefaultSet (find provider_key id s.providers) id s (set_default actor id s)
set_default-others actor id s = elim (Option-cases (find provider_key id s.providers)) [
  | inl e ↦ rw (set_default_missing actor id s e, e) refl
  | inr (p, e) ↦
      subst (λ o. DefaultSet o id s (set_default actor id s)) (sym e)
        (set_default-DefaultMade actor id s p p.enabled e refl)
]
