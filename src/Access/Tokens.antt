-- ===== src/Access/Tokens.antt =====
-- backend/app/services/tokens.py: access and refresh tokens over a JWT library, which enters as a
-- record of its two functions and what the library documents of them. Times are in seconds.
use wes.Base.{
  ltb, Bool-cases, inl, inr, ℕ, ◌+◌, ◌*◌, ◌≤◌, ◌<◌, ◌≡◌, ap, Bool, true, false, Option, none, some,
  Text, arith, if◌then◌else◌,
}

-- The `type` claim.
pub data TokenType : Type 0 where
  access refresh : TokenType

-- The body of a token; a claim that is missing, or is no UUID or number, is `none`.
pub record Payload : Type 0 where
  pub sub : Option ℕ
  pub type : Option TokenType
  pub role : Option Text
  pub email : Option Text
  pub ver : Option ℕ
  pub jti : Option Text
  pub iat : ℕ
  pub exp : ℕ

-- What `jwt.decode` returns or raises.
pub data Decoded : Type 0 where
  claims : Payload → Decoded
  expired invalid : Decoded

-- PyJWT with the configured secret and algorithm: a token that it encoded decodes to its body from
-- its `iat` on and until its `exp`, and from then on raises `ExpiredSignatureError`.
pub record Jwt : Type 0 where
  pub encode : Payload → Text
  pub decode : ℕ → Text → Decoded
  pub decode_fresh :
      (now : ℕ) (p : Payload) → p.iat ≤ now → now < p.exp → decode now (encode p) ≡ claims p
  pub decode_late :
      (now : ℕ) (p : Payload) → p.iat ≤ now → p.exp ≤ now → decode now (encode p) ≡ expired

-- The settings of backend/app/core/config.py that the service reads.
pub record Settings : Type 0 where
  pub access_token_minutes : ℕ
  pub refresh_token_days : ℕ
  pub refresh_token_remember_days : ℕ

abbrev pub default_settings : Settings
default_settings = record {
  access_token_minutes = 30;
  refresh_token_days = 7;
  refresh_token_remember_days = 30;
}

pub record AccessClaims : Type 0 where
  pub subject : ℕ
  pub role : Text
  pub email : Text

pub record RefreshClaims : Type 0 where
  pub subject : ℕ
  pub version : ℕ
  pub jti : Option Text

-- The three messages of `TokenError`, and the wrong type.
pub data TokenError : Type 0 where
  token_expired token_invalid wrong_type malformed : TokenError

pub data Checked (A : Type 0) : Type 0 where
  valid : A → Checked A
  refused : TokenError → Checked A

abbrev is_access : Option TokenType → Bool
is_access (some access) = true
is_access _ = false

abbrev is_refresh : Option TokenType → Bool
is_refresh (some refresh) = true
is_refresh _ = false

abbrev pub refresh_seconds : Settings → Bool → ℕ
refresh_seconds s remember =
    (if remember then s.refresh_token_remember_days else s.refresh_token_days) * 86400

abbrev read_access : Payload → Option ℕ → Option Text → Option Text → Checked AccessClaims
read_access p (some sub) (some role) (some email) =
    valid (record { subject = sub; role = role; email = email })
read_access p _ _ _ = refused malformed

abbrev read_refresh : Payload → Option ℕ → Option ℕ → Checked RefreshClaims
read_refresh p (some sub) (some ver) = valid (record { subject = sub; version = ver; jti = p.jti })
read_refresh p _ _ = refused malformed

-- What `decode_access` and `decode_refresh` do with what `_decode` returned or raised.
abbrev check_access : Decoded → Checked AccessClaims
check_access (claims p) =
    if is_access p.type then read_access p p.sub p.role p.email else refused wrong_type
check_access expired = refused token_expired
check_access invalid = refused token_invalid

abbrev check_refresh : Decoded → Checked RefreshClaims
check_refresh (claims p) =
    if is_refresh p.type then read_refresh p p.sub p.ver else refused wrong_type
check_refresh expired = refused token_expired
check_refresh invalid = refused token_invalid

module _ (jwt : Jwt) (settings : Settings) where
  abbrev pub access_payload : ℕ → ℕ → Text → Text → Payload
  access_payload now subject role email = record {
    sub = some subject;
    type = some access;
    role = some role;
    email = some email;
    ver = none;
    jti = none;
    iat = now;
    exp = now + settings.access_token_minutes * 60;
  }

  unfoldable pub create_access_token : ℕ → ℕ → Text → Text → Text
  create_access_token now subject role email = jwt.encode (access_payload now subject role email)

  abbrev pub refresh_payload : ℕ → ℕ → ℕ → Bool → Option Text → Payload
  refresh_payload now subject version remember jti = record {
    sub = some subject;
    type = some refresh;
    role = none;
    email = none;
    ver = some version;
    jti = jti;
    iat = now;
    exp = now + refresh_seconds settings remember;
  }

  unfoldable pub create_refresh_token : ℕ → ℕ → ℕ → Bool → Option Text → Text
  create_refresh_token now subject version remember jti =
      jwt.encode (refresh_payload now subject version remember jti)

  unfoldable pub decode_access : ℕ → Text → Checked AccessClaims
  decode_access now token = check_access (jwt.decode now token)

  unfoldable pub decode_refresh : ℕ → Text → Checked RefreshClaims
  decode_refresh now token = check_refresh (jwt.decode now token)

  -- From its making on, a refresh token gives back what it was made from until it expires and is
  -- refused as expired after that, and it never passes as an access token.
  pub decode-create_refresh_token :
      (now later subject version : ℕ) (remember : Bool) (jti : Option Text)
      → now ≤ later
      → let token = create_refresh_token now subject version remember jti in
        let fresh = ltb later (now + refresh_seconds settings remember) in
        (decode_refresh later token ≡ (
          if fresh
          then valid (record { subject = subject; version = version; jti = jti })
          else refused token_expired))
        × (decode_access later token ≡ refused (if fresh then wrong_type else token_expired))
  unfolding create_refresh_token decode_refresh decode_access
  decode-create_refresh_token now later subject version remember jti h =
      let p : Payload = refresh_payload now subject version remember jti in
      elim (Bool-cases (ltb later (now + refresh_seconds settings remember))) [
        | inl e ↦
            let q : jwt.decode later (jwt.encode p) ≡ claims p =
              jwt.decode_fresh later p h (ground arith) in
            rw e (ap check_refresh q, ap check_access q)
        | inr e ↦
            let q : jwt.decode later (jwt.encode p) ≡ expired =
              jwt.decode_late later p h (ground arith) in
            rw e (ap check_refresh q, ap check_access q)
      ]

  -- From its making on, an access token gives back its claims until it expires and is refused as
  -- expired after that, and it never passes as a refresh token.
  pub decode-create_access_token :
      (now later subject : ℕ) (role email : Text)
      → now ≤ later
      → let token = create_access_token now subject role email in
        let fresh = ltb later (now + settings.access_token_minutes * 60) in
        (decode_access later token ≡ (
          if fresh
          then valid (record { subject = subject; role = role; email = email })
          else refused token_expired))
        × (decode_refresh later token ≡ refused (if fresh then wrong_type else token_expired))
  unfolding create_access_token decode_refresh decode_access
  decode-create_access_token now later subject role email h =
      let p : Payload = access_payload now subject role email in
      elim (Bool-cases (ltb later (now + settings.access_token_minutes * 60))) [
        | inl e ↦
            let q : jwt.decode later (jwt.encode p) ≡ claims p =
              jwt.decode_fresh later p h (ground arith) in
            rw e (ap check_access q, ap check_refresh q)
        | inr e ↦
            let q : jwt.decode later (jwt.encode p) ≡ expired =
              jwt.decode_late later p h (ground arith) in
            rw e (ap check_access q, ap check_refresh q)
      ]
