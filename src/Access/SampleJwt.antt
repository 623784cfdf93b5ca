-- ===== src/Access/SampleJwt.antt =====
-- A concrete token codec with the documented laws of the JWT library, for the witnesses: the body is
-- written out as numbers, its texts closed by a zero.
use wes.Base.{
  ap, ◌∙◌, ◌≤◌, ◌<◌, ℕ, zero, suc, ◌≡◌, refl, Option, none, some, [], ◌∷◌, Text, arith,
  if◌then◌else◌, ltb,
}
use wes.Access.Tokens.{TokenType, access, refresh, Payload, Decoded, claims, expired, invalid, Jwt}

abbrev number : Option ℕ → ℕ
number none = 0
number (some n) = suc n

abbrev read_number : ℕ → Option ℕ
read_number zero = none
read_number (suc n) = some n

abbrev type_number : Option TokenType → ℕ
type_number none = 0
type_number (some access) = 1
type_number (some refresh) = 2

abbrev read_type : ℕ → Option TokenType
read_type zero = none
read_type (suc zero) = some access
read_type (suc (suc _)) = some refresh

abbrev chars : Text → Text → Text
chars [] u = 0 ∷ u
chars (c ∷ t) u = suc c ∷ chars t u

abbrev read_chars : Text → Text × Text
read_chars [] = ([], [])
read_chars (zero ∷ u) = ([], u)
read_chars (suc c ∷ t) = let (a, b) = read_chars t in (c ∷ a, b)

abbrev block : Option Text → Text → Text
block none u = 0 ∷ u
block (some t) u = 1 ∷ chars t u

abbrev read_block : Text → Option Text × Text
read_block [] = (none, [])
read_block (zero ∷ u) = (none, u)
read_block (suc _ ∷ u) = let (a, b) = read_chars u in (some a, b)

read_chars_lem : (t u : Text) → read_chars (chars t u) ≡ (t, u)
read_chars_lem [] u = refl
read_chars_lem (c ∷ t) u = rw (read_chars_lem t u) refl

read_block_lem : (t : Option Text) (u : Text) → read_block (block t u) ≡ (t, u)
read_block_lem none u = refl
read_block_lem (some t) u = rw (read_chars_lem t u) refl

read_number_lem : (n : Option ℕ) → read_number (number n) ≡ n
read_number_lem none = refl
read_number_lem (some n) = refl

read_type_lem : (t : Option TokenType) → read_type (type_number t) ≡ t
read_type_lem none = refl
read_type_lem (some access) = refl
read_type_lem (some refresh) = refl

abbrev sample_encode : Payload → Text
sample_encode p =
    number p.sub
    ∷ type_number p.type
    ∷ number p.ver
    ∷ p.iat
    ∷ p.exp
    ∷ block p.role (block p.email (block p.jti []))

abbrev pub read_payload : Text → Option Payload
read_payload (a ∷ b ∷ c ∷ d ∷ e ∷ u) =
    let (role, u1) = read_block u in
    let (email, u2) = read_block u1 in
    let (jti, u3) = read_block u2 in
    some (record {
      sub = read_number a;
      type = read_type b;
      role = role;
      email = email;
      ver = read_number c;
      jti = jti;
      iat = d;
      exp = e;
    })
read_payload _ = none

pub read_payload_lem : (p : Payload) → read_payload (sample_encode p) ≡ some p
read_payload_lem p =
    rw
      (
        read_block_lem p.role (block p.email (block p.jti [])),
        read_block_lem p.email (block p.jti []),
        read_block_lem p.jti [],
        read_number_lem p.sub,
        read_number_lem p.ver,
        read_type_lem p.type,
      )
      refl

abbrev check_expiry : ℕ → Option Payload → Decoded
check_expiry now none = invalid
check_expiry now (some p) = if ltb now p.exp then claims p else expired

pub check_expiry_fresh :
    (now : ℕ) (p : Payload) → now < p.exp → check_expiry now (some p) ≡ claims p
check_expiry_fresh now p h = ground arith

pub check_expiry_late : (now : ℕ) (p : Payload) → p.exp ≤ now → check_expiry now (some p) ≡ expired
check_expiry_late now p h = ground arith

abbrev pub sample_jwt : Jwt
sample_jwt = record {
  encode = sample_encode;
  decode = λ now t. check_expiry now (read_payload t);
  decode_fresh =
      λ now p h k. ap (check_expiry now) (read_payload_lem p) ∙ check_expiry_fresh now p k;
  decode_late = λ now p h k. ap (check_expiry now) (read_payload_lem p) ∙ check_expiry_late now p k;
}
