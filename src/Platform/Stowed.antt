-- ===== src/Platform/Stowed.antt =====
-- A credential that was stored is in the configuration of the provider's adapter.
use wes.Base.{
  Result, ℕ, Bool, true, false, Option, none, some, List, [], ◌∷◌, ◌≡◌, refl, ◌∙◌, ap, sym, arith,
  length, length-append, keep, keep-append, Text, text_eq_iff, ==_refl, subst, raise_if, raised,
  ◌>>◌, first, first-append_none, first-modify, first_passes, modify, UniqueKeys, ok, lookup,
}
use wes.Platform.Float.{Float}
use wes.Platform.State.{AiProvider, ProviderSecret, PlatformDb}
use wes.Platform.Cipher.{Bytes, Crypto, Fernet, encrypt, decrypt}
use wes.Platform.Sealed.{OpensSealed, decrypt-encrypt}
use wes.Platform.Secrets.{
  Box, Office, strip, is_refused, names_secret, secret_key, env_of, new_secret, rotated,
  write_secret, store_secret, set_secret, in_environment, open_all, secrets_for,
}
use wes.Platform.Opened.{OneNamed, lookup-opened_in, lookup-runtime_config}
use wes.Platform.Runtime.{text, runtime_config}

-- The box of a secret key, for the nonce that the next encryption draws.
abbrev pub secret_box : Crypto → Option Fernet → Text → Bytes → Box
secret_box c fernet secret nonce = record {
  encrypt = encrypt c fernet secret nonce;
  decrypt = decrypt c fernet secret;
}

names_secret_new :
    (o : Office) (id provider_id : ℕ) (environment key_name value : Text)
    → names_secret provider_id environment key_name
        (new_secret o id provider_id environment key_name value)
      ≡ true
names_secret_new o id provider_id environment key_name value =
    rw
      (
        ==_refl provider_id,
        (text_eq_iff environment environment).1 refl,
        (text_eq_iff key_name key_name).1 refl,
      )
      refl

module _ (o : Office) (id provider_id : ℕ) (environment key_name value : Text) where
  ciphertext_written :
      (s : PlatformDb) (found : Option ProviderSecret)
      → UniqueKeys secret_key s.secrets
      → first (names_secret provider_id environment key_name) s.secrets ≡ found
      → (r : ProviderSecret) × (first
            (names_secret provider_id environment key_name)
            (write_secret o id provider_id environment key_name value found s).secrets
          ≡ some r)
        × (r.ciphertext ≡ o.box.encrypt value)
  ciphertext_written s none u h =
      let fresh = new_secret o id provider_id environment key_name value in
      (
        fresh,
        first-append_none (names_secret provider_id environment key_name) s.secrets (fresh ∷ []) h
            ∙ rw (names_secret_new o id provider_id environment key_name value) refl,
        refl,
      )
  ciphertext_written s (some r) u h = (
    rotated o value r,
    first-modify secret_key (rotated o value) (λ x. refl)
        (names_secret provider_id environment key_name) r s.secrets u h
        (first_passes (names_secret provider_id environment key_name) r s.secrets h),
    refl,
  )

set_secret_stores :
    (o : Office) (id provider_id : ℕ) (value key_name : Text) (environment : Option Text)
    (s : PlatformDb)
    → is_refused o.is_space value ≡ false
    → set_secret o id provider_id value key_name environment s
      ≡ store_secret o id provider_id (strip o.is_space value) key_name (env_of o environment) s
unfolding set_secret
set_secret_stores o id provider_id value key_name environment s h =
    ap
      (λ b.
        (raise_if b raised
            >> store_secret o id provider_id (strip o.is_space value) key_name
                (env_of o environment))
          s)
      h

module _ (q : ProviderSecret → Bool) where
  length-keep-modify :
      (f : ProviderSecret → ProviderSecret) (k : ℕ) (t : List ProviderSecret)
      → ((r : ProviderSecret) → q (f r) ≡ q r)
      → length (keep q (modify secret_key k f t)) ≡ length (keep q t)
  length-keep-modify f k [] h = refl
  length-keep-modify f k (r ∷ t) h = ground (arith, h r, length-keep-modify f k t h)

  length-keep-none : (t : List ProviderSecret) → first q t ≡ none → length (keep q t) ≡ 0
  length-keep-none [] h = refl
  length-keep-none (r ∷ t) h = ground (arith, length-keep-none t)

module _ (o : Office) (id provider_id : ℕ) (environment key_name value : Text) where
  write_secret-OneNamed :
      (s : PlatformDb) (found : Option ProviderSecret)
      → first (names_secret provider_id environment key_name) s.secrets ≡ found
      → OneNamed provider_id environment key_name s.secrets
      → OneNamed provider_id environment key_name
          (write_secret o id provider_id environment key_name value found s).secrets
  write_secret-OneNamed s none h u =
      let q = names_secret provider_id environment key_name in
      let fresh = new_secret o id provider_id environment key_name value in
      rw
        (
          keep-append q s.secrets (fresh ∷ []),
          names_secret_new o id provider_id environment key_name value,
        )
        (omega
          (arith, length-append (keep q s.secrets) (fresh ∷ []), length-keep-none q s.secrets h))
  write_secret-OneNamed s (some r) h u = omega (
    arith,
    u,
    length-keep-modify (names_secret provider_id environment key_name) (rotated o value) r.id
        s.secrets (λ x. refl),
  )

stored_opens :
    (o : Office) (id provider_id : ℕ) (value key_name environment : Text) (s : PlatformDb)
    → UniqueKeys secret_key s.secrets
    → OneNamed provider_id environment key_name s.secrets
    → o.box.decrypt (o.box.encrypt value) ≡ some value
    → lookup key_name (
        open_all o
          (keep
            (in_environment provider_id environment)
            (store_secret o id provider_id value key_name environment s).1.secrets)
          [])
      ≡ some value
stored_opens o id provider_id value key_name environment s u one d =
    let found = first (names_secret provider_id environment key_name) s.secrets in
    let after = (write_secret o id provider_id environment key_name value found s).secrets in
    let (r, there, sealed) =
      ciphertext_written o id provider_id environment key_name value s found u refl in
    lookup-opened_in o provider_id environment key_name after [] r value
      (write_secret-OneNamed o id provider_id environment key_name value s found refl one) there
      (ap o.box.decrypt sealed ∙ d)

-- With a MAC of 32 bytes, Base64 and UTF-8 that their decodings undo, a nonce of 16 bytes, and
-- Fernet, where it is installed, opening what it sealed and marking no token as the stdlib cipher
-- does: after a value that passes the validation is set for a provider, a name and the active
-- environment, or replaces the one before, the configuration that the provider's adapter is made
-- with has the stripped value under that name, whatever the settings of the provider are, if the
-- rows have unique keys and at most one of them has that provider, environment and name.
pub set_secret-runtime_config :
    (c : Crypto) (fernet : Option Fernet) (secret : Text) (nonce : Bytes) (o : Office)
    (timeout : Float) (id : ℕ) (p : AiProvider) (value key_name : Text) (environment : Option Text)
    (s : PlatformDb)
    → o.box ≡ secret_box c fernet secret nonce
    → OpensSealed c secret fernet
    → ((key message : Bytes) → length (c.hmac key message) ≡ 32)
    → ((bs : Bytes) → c.b64decode (c.b64encode bs) ≡ some bs)
    → c.from_utf8 (c.utf8 (strip o.is_space value)) ≡ some (strip o.is_space value)
    → length nonce ≡ 16
    → UniqueKeys secret_key s.secrets
    → env_of o environment ≡ o.environment
    → OneNamed p.id o.environment key_name s.secrets
    → is_refused o.is_space value ≡ false
    → ((set_secret o id p.id value key_name environment s).0 ≡ ok tt)
      × (lookup key_name
            (runtime_config o timeout p (set_secret o id p.id value key_name environment s).1)
          ≡ some (text (some (strip o.is_space value))))
unfolding secrets_for
set_secret-runtime_config c fernet secret nonce o timeout id p value key_name environment s b sealed
      full decodes utf n u active one h =
    let v = strip o.is_space value in
    let opened : o.box.decrypt (o.box.encrypt v) ≡ some v =
      subst (λ (x : Box). x.decrypt (x.encrypt v) ≡ some v) (sym b)
        (decrypt-encrypt c full fernet secret v nonce sealed decodes utf n) in
    let stores : set_secret o id p.id value key_name environment s
        ≡ store_secret o id p.id v key_name o.environment s =
      set_secret_stores o id p.id value key_name environment s h
      ∙ ap (λ (env : Text). store_secret o id p.id v key_name env s) active in
    subst
      (λ (x : Result (Unit {0}) × PlatformDb).
        (x.0 ≡ ok tt) × (lookup key_name (runtime_config o timeout p x.1) ≡ some (text (some v))))
      (sym stores)
      (
        refl,
        lookup-runtime_config o timeout p (store_secret o id p.id v key_name o.environment s).1
            key_name v (stored_opens o id p.id v key_name o.environment s u one opened),
      )
