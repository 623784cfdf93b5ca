-- ===== src/Access/Tests.antt =====
-- The theorems on roles, tokens and sessions at a concrete table of employees.
use wes.Base.{
  ℕ, Bool, ◌≡◌, refl, true, false, Option, none, some, ok, err, unauthorized, forbidden, [], ◌∷◌,
  Text, text_eq, arith,
}
use wes.Access.Roles.{
  Role, director, devops_production, require_permission, require_permission-founder_only,
}
use wes.Access.Tokens.{
  default_settings, create_refresh_token, create_access_token, decode_access, decode_refresh, valid,
  refused, token_expired, wrong_type, decode-create_refresh_token, decode-create_access_token,
}
use wes.Access.Accounts.{Employee, active, AuthDb}
use wes.Access.Auth.{
  rotate, registered, revoke_jti, verify, login, refresh, logout, token_pair, record_login, to_user,
}
use wes.Access.Lockout.{Attempt, requests, login_locks}
use wes.Access.Rotation.{refresh-logout, refresh_once}
use wes.Access.Login.{login-refresh}
use wes.Access.SampleJwt.{sample_jwt}

require_permission-founder_only_example :
    require_permission devops_production director ≡ err forbidden
require_permission-founder_only_example =
    require_permission-founder_only devops_production director refl

decode-create_refresh_token_example :
    let token = create_refresh_token sample_jwt default_settings 10 1 0 false none in
    (decode_refresh sample_jwt default_settings 20 token
      ≡ valid (record { subject = 1; version = 0; jti = none }))
    × (decode_access sample_jwt default_settings 20 token ≡ refused wrong_type)
decode-create_refresh_token_example =
    decode-create_refresh_token sample_jwt default_settings 10 20 1 0 false none (ground arith)

decode-create_access_token_example :
    let token = create_access_token sample_jwt default_settings 10 1 [] [] in
    (decode_access sample_jwt default_settings 2000 token ≡ refused token_expired)
    × (decode_refresh sample_jwt default_settings 2000 token ≡ refused token_expired)
decode-create_access_token_example =
    decode-create_access_token sample_jwt default_settings 10 2000 1 [] [] (ground arith)

abbrev no_name : Role → Text
no_name r = []

abbrev checkpw : Text → Text → Option Bool
checkpw password hash = some (text_eq password hash)

abbrev ann : Employee
ann = record {
  id = 1;
  employee_code = 65 ∷ [];
  full_name = 97 ∷ [];
  email = 97 ∷ 64 ∷ [];
  department_id = none;
  status = active;
  role = director;
  password_hash = some (112 ∷ []);
  is_active = true;
  last_login = none;
  failed_login_attempts = 3;
  refresh_token_version = 0;
}

abbrev db : AuthDb
db = record { employees = ann ∷ []; refresh_tokens = []; audit_log = [] }

abbrev guess : ℕ → Attempt
guess n = record { now = n; jti = n ∷ []; password = 120 ∷ []; remember = false }

login_locks_example :
    let s' =
      requests sample_jwt default_settings no_name checkpw
        (97 ∷ 64 ∷ [])
        (guess 10 ∷ guess 11 ∷ [])
        db in
    login sample_jwt default_settings no_name checkpw 12
      (12 ∷ [])
      (97 ∷ 64 ∷ [])
      (112 ∷ [])
      false
      s'
    ≡ (err unauthorized, s')
unfolding verify
login_locks_example =
    login_locks sample_jwt default_settings no_name checkpw (97 ∷ 64 ∷ [])
      (guess 10 ∷ guess 11 ∷ [])
      (record { now = 12; jti = 12 ∷ []; password = 112 ∷ []; remember = false }) db ann
      (ground arith) refl refl (ground arith) (ground arith)

abbrev logged_in_db : AuthDb
logged_in_db =
    (login sample_jwt default_settings no_name checkpw 10 (10 ∷ []) (97 ∷ 64 ∷ []) (112 ∷ []) false
      db).1

refresh-logout_example :
    let token = create_refresh_token sample_jwt default_settings 10 1 0 false (some (10 ∷ [])) in
    refresh sample_jwt default_settings no_name 20 (20 ∷ []) token (logout 1 logged_in_db)
    ≡ (err unauthorized, logout 1 logged_in_db)
unfolding login verify
refresh-logout_example =
    refresh-logout sample_jwt default_settings no_name 10 20 1 0 false (some (10 ∷ [])) (20 ∷ [])
      logged_in_db (record_login 10 ann) (ground arith) refl (ground arith)

refresh_once_example :
    let token = create_refresh_token sample_jwt default_settings 10 1 0 false (some (10 ∷ [])) in
    let s' = (refresh sample_jwt default_settings no_name 20 (20 ∷ []) token logged_in_db).1 in
    refresh sample_jwt default_settings no_name 30 (30 ∷ []) token s' ≡ (err unauthorized, s')
unfolding refresh login verify rotate registered revoke_jti create_refresh_token decode_refresh
refresh_once_example =
    refresh_once sample_jwt default_settings no_name 10 20 30 1 0 false (10 ∷ []) (20 ∷ [])
      (30 ∷ []) logged_in_db (ground arith) (ground arith) refl

login-refresh_example :
    let tokens =
      token_pair sample_jwt default_settings no_name 10 (10 ∷ []) false (record_login 10 ann) in
    let (r, s') =
      login sample_jwt default_settings no_name checkpw 10
        (10 ∷ [])
        (97 ∷ 64 ∷ [])
        (112 ∷ [])
        false
        db in
    (r ≡ ok (to_user (record_login 10 ann), tokens))
    × ((refresh sample_jwt default_settings no_name 20 (20 ∷ []) tokens.refresh_token s').0
        ≡ ok (
            token_pair sample_jwt default_settings no_name 20
              (20 ∷ [])
              false
              (record_login 10 ann)))
unfolding verify
login-refresh_example =
    login-refresh sample_jwt default_settings no_name checkpw 10 (10 ∷ []) (97 ∷ 64 ∷ []) (112 ∷ [])
      false db ann refl refl (ground arith) refl 20 (20 ∷ []) (ground arith) refl (ground arith)
      (ground arith)
