-- ===== src/Platform/Opened.antt =====
-- The credentials that secrets_for opens, in the configuration of the provider's adapter.
use wes.Base.{
  ℕ, ◌&&◌, ◌≤◌, true, false, Option, none, some, List, [], ◌∷◌, ◌≡◌, refl, ◌∙◌, ap, sym, arith,
  length, keep, Text, text_eq, text_eq_iff, codes, is_nonempty, subst, first, inl, inr, Bool-cases,
  some_inj, Dict, lookup, put, put_all, Distinct, lookup-put_self, lookup-put_other, put-Distinct,
  lookup-put_all, lookup-setdefault,
}
use wes.Platform.Float.{Float}
use wes.Platform.State.{AiProvider, ProviderSecret, PlatformDb}
use wes.Platform.Secrets.{Office, names_secret, in_environment, put_opened, open_all, secrets_for}
use wes.Platform.Runtime.{
  Setting, text, seconds, as_settings, config_dict, with_model, runtime_config,
}

-- At most one row has this provider, environment and name.
abbrev pub OneNamed : ℕ → Text → Text → List ProviderSecret → Type 0
OneNamed provider_id environment key_name t =
    length (keep (names_secret provider_id environment key_name) t) ≤ 1

names_in :
    (provider_id : ℕ) (environment key_name : Text) (r : ProviderSecret)
    → names_secret provider_id environment key_name r
      ≡ (in_environment provider_id environment r && text_eq r.key_name key_name)
names_in provider_id environment key_name r = ground arith

module _ (o : Office) (provider_id : ℕ) (environment key_name : Text) where
  lookup-put_opened :
      (j : Text) (value : Option Text) (out : Dict Text)
      → text_eq j key_name ≡ false
      → lookup key_name (put_opened o j value out) ≡ lookup key_name out
  lookup-put_opened j none out h = refl
  lookup-put_opened j (some v) out h = lookup-put_other j key_name v out h

  abbrev pub opened_in : List ProviderSecret → Dict Text → Dict Text
  opened_in t out = open_all o (keep (in_environment provider_id environment) t) out

  lookup-none_named :
      (t : List ProviderSecret) (out : Dict Text)
      → length (keep (names_secret provider_id environment key_name) t) ≡ 0
      → lookup key_name (opened_in t out) ≡ lookup key_name out
  lookup-none_named [] out h = refl
  lookup-none_named (r ∷ t) out h =
      elim (Bool-cases (names_secret provider_id environment key_name r)) [
        | inl n ↦ absurd (
            omega (
              arith,
              let bad : length (r ∷ keep (names_secret provider_id environment key_name) t) ≡ 0 =
                    rw n at h in
                  bad,
            ))
        | inr n ↦ elim (Bool-cases (in_environment provider_id environment r)) [
          | inl e ↦
              let other : text_eq r.key_name key_name ≡ false =
                ground (arith, names_in provider_id environment key_name r) in
              let found = o.box.decrypt r.ciphertext in
              rw e (
                lookup-none_named t (put_opened o r.key_name found out) (rw n at h)
                ∙ lookup-put_opened r.key_name found out other)
          | inr e ↦ rw e (lookup-none_named t out (rw n at h))
        ]
      ]

  pub lookup-opened_in :
      (t : List ProviderSecret) (out : Dict Text) (r : ProviderSecret) (v : Text)
      → OneNamed provider_id environment key_name t
      → first (names_secret provider_id environment key_name) t ≡ some r
      → o.box.decrypt r.ciphertext ≡ some v
      → lookup key_name (opened_in t out) ≡ some v
  lookup-opened_in [] out r v u f d = absurd (let bad : none ≡ some r = f in cc)
  lookup-opened_in (x ∷ t) out r v u f d =
      elim (Bool-cases (names_secret provider_id environment key_name x)) [
        | inl n ↦
            let same : x ≡ r = some_inj x r (rw n at f) in
            let e : in_environment provider_id environment x ≡ true =
              ground (arith, names_in provider_id environment key_name x) in
            let named : x.key_name ≡ key_name =
              (text_eq_iff x.key_name key_name).0
                (ground (arith, names_in provider_id environment key_name x)) in
            let opened : o.box.decrypt x.ciphertext ≡ some v =
              subst (λ (y : ProviderSecret). o.box.decrypt y.ciphertext ≡ some v) (sym same) d in
            let one : length (x ∷ keep (names_secret provider_id environment key_name) t) ≤ 1 =
              rw n at u in
            let rest : lookup key_name (opened_in t (put x.key_name v out)) ≡ some v =
              lookup-none_named t (put x.key_name v out) (omega (arith, one))
              ∙ subst (λ j. lookup key_name (put j v out) ≡ some v) (sym named)
                  (lookup-put_self key_name v out) in
            rw e (
              subst (λ w. lookup key_name (opened_in t (put_opened o x.key_name w out)) ≡ some v)
                (sym opened) rest)
        | inr n ↦ elim (Bool-cases (in_environment provider_id environment x)) [
          | inl e ↦ rw e (
              lookup-opened_in t (put_opened o x.key_name (o.box.decrypt x.ciphertext) out) r v
                (rw n at u) (rw n at f) d)
          | inr e ↦ rw e (lookup-opened_in t out r v (rw n at u) (rw n at f) d)
        ]
      ]

put_opened-Distinct :
    (o : Office) (k : Text) (value : Option Text) (out : Dict Text)
    → Distinct out
    → Distinct (put_opened o k value out)
put_opened-Distinct o k none out h = h
put_opened-Distinct o k (some v) out h = put-Distinct k v out h

open_all-Distinct :
    (o : Office) (t : List ProviderSecret) (out : Dict Text)
    → Distinct out
    → Distinct (open_all o t out)
open_all-Distinct o [] out h = h
open_all-Distinct o (r ∷ t) out h =
    open_all-Distinct o t (put_opened o r.key_name (o.box.decrypt r.ciphertext) out)
      (put_opened-Distinct o r.key_name (o.box.decrypt r.ciphertext) out h)

lookup-as_settings :
    (k v : Text) (d : Dict Text)
    → lookup k d ≡ some v
    → lookup k (as_settings d) ≡ some (text (some v))
lookup-as_settings k v [] h = absurd (let bad : none ≡ some v = h in cc)
lookup-as_settings k v ((j, w) ∷ d) h = elim (Bool-cases (text_eq j k)) [
  | inl e ↦ rw e (ap (λ x. some (text (some x))) (some_inj w v (rw e at h)))
  | inr e ↦ rw e (lookup-as_settings k v d (rw e at h))
]

lookup-as_settings-none :
    (k : Text) (d : Dict Text) → lookup k d ≡ none → lookup k (as_settings d) ≡ none
lookup-as_settings-none k [] h = refl
lookup-as_settings-none k ((j, w) ∷ d) h = elim (Bool-cases (text_eq j k)) [
  | inl e ↦ absurd (let bad : some w ≡ none = rw e at h in cc)
  | inr e ↦ rw e (lookup-as_settings-none k d (rw e at h))
]

as_settings-Distinct : (d : Dict Text) → Distinct d → Distinct (as_settings d)
as_settings-Distinct [] h = tt
as_settings-Distinct ((k, v) ∷ d) h = (lookup-as_settings-none k d h.0, as_settings-Distinct d h.1)

lookup-with_model :
    (k : Text) (v : Setting) (model : Option Text) (d : Dict Setting)
    → lookup k d ≡ some v
    → lookup k (with_model model d) ≡ some v
lookup-with_model k v none d h = h
lookup-with_model k v (some m) d h = elim (Bool-cases (is_nonempty m)) [
  | inl e ↦ rw e (lookup-setdefault k (codes "model") v (text (some m)) d h)
  | inr e ↦ rw e h
]

-- A secret of the active environment is in the configuration, whatever the settings are.
pub lookup-runtime_config :
    (o : Office) (timeout : Float) (p : AiProvider) (s : PlatformDb) (k v : Text)
    → lookup k (secrets_for o p.id none s) ≡ some v
    → lookup k (runtime_config o timeout p s) ≡ some (text (some v))
unfolding runtime_config secrets_for
lookup-runtime_config o timeout p s k v h =
    let rows = keep (in_environment p.id o.environment) s.secrets in
    let cfg = put_all (config_dict p s) (as_settings (open_all o rows [])) in
    lookup-setdefault k (codes "timeout") (text (some v)) (seconds timeout)
      (with_model p.active_model cfg)
      (lookup-with_model k (text (some v)) p.active_model cfg (
        lookup-put_all k (text (some v)) (config_dict p s) (as_settings (open_all o rows []))
          (as_settings-Distinct (open_all o rows []) (open_all-Distinct o rows [] tt))
          (lookup-as_settings k v (open_all o rows []) h)))
