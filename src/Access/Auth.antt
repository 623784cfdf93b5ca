-- ===== src/Access/Auth.antt =====
-- backend/app/services/auth.py, and the login endpoint of backend/app/api/v1/auth.py. One reading
-- of the clock serves a whole call, and `jti` is the fresh identifier of the refresh token.
use wes.Base.{
  ℕ, ◌+◌, ◌*◌, Bool, true, false, not, ◌&&◌, Option, none, some, [], ◌∷◌, ◌++◌, if◌then◌else◌, ◌==◌,
  leb, Text, text_eq, is_nonempty, take, Action, Result, ok, err, pure, raise, gets, or_raise,
  raise_if, modify_state, ◌>>=◌, ◌>>◌, unauthorized, transaction, first, find, modify, update_where,
}
use wes.Access.Accounts.{
  Employee, employee_id, RefreshToken, AuditAction, login_failed, AuditLog, AuthDb,
  AuthenticatedUser, TokenPair,
}
use wes.Access.Accounts
use wes.Access.Roles.{Role}
use wes.Access.Tokens.{
  Jwt, Settings, RefreshClaims, Checked, valid, refused, refresh_seconds, create_access_token,
  create_refresh_token, decode_access, decode_refresh,
}

-- `_MAX_FAILED_ATTEMPTS`
abbrev pub max_failed_attempts : ℕ
max_failed_attempts = 5

-- `get_by_email`
abbrev pub has_email : Text → Employee → Bool
has_email email e = text_eq e.email email

abbrev pub get_by_email : Text → AuthDb → Option Employee
get_by_email email s = first (has_email email) s.employees

abbrev pub has_jti : Text → RefreshToken → Bool
has_jti jti row = text_eq row.jti jti

abbrev pub revoke : RefreshToken → RefreshToken
revoke row = record row { revoked = true }

-- A write to the attributes of a loaded employee.
abbrev pub write_employee : ℕ → (Employee → Employee) → AuthDb → AuthDb
write_employee id f s = record s { employees = modify employee_id id f s.employees }

-- `_to_user`
abbrev pub to_user : Employee → AuthenticatedUser
to_user e = record {
  id = e.id;
  employee_code = e.employee_code;
  full_name = e.full_name;
  email = e.email;
  role = e.role;
  department_id = e.department_id;
  status = e.status;
}

abbrev pub count_failure : Employee → Employee
count_failure e = record e { failed_login_attempts = e.failed_login_attempts + 1 }

abbrev pub record_login : ℕ → Employee → Employee
record_login now e = record e { failed_login_attempts = 0; last_login = some now }

-- `PasswordService.verify`. A password is its UTF-8 bytes; bcrypt's `checkpw` enters as a function
-- that returns none where it raises.
unfoldable pub verify : (Text → Text → Option Bool) → Text → Option Text → Bool
verify checkpw password none = false
verify checkpw password (some hash) =
    if is_nonempty hash
    then (elim (checkpw (take 72 password) hash) [ none ↦ false | some b ↦ b ])
    else false

-- Whether the registry lets the token pass: one without a `jti` is not looked up.
unfoldable pub registered : Option Text → AuthDb → Bool
registered none s = true
registered (some jti) s = elim (first (has_jti jti) s.refresh_tokens) [
  | none ↦ false
  | some row ↦ not row.revoked
]

unfoldable pub revoke_jti : Option Text → AuthDb → AuthDb
revoke_jti none s = s
revoke_jti (some jti) s = record s {
  refresh_tokens = update_where (has_jti jti) revoke s.refresh_tokens;
}

abbrev pub with_claims : {C A : Type 0} → Checked C → (C → Action AuthDb A) → Action AuthDb A
with_claims (valid c) k = k c
with_claims (refused e) k = raise unauthorized

-- Every registered token of the employee that is not revoked yet.
abbrev pub outstanding : ℕ → RefreshToken → Bool
outstanding id row = row.employee_id == id && not row.revoked

abbrev pub bump_version : Employee → Employee
bump_version e = record e { refresh_token_version = e.refresh_token_version + 1 }

unfoldable pub logout : ℕ → AuthDb → AuthDb
logout id s = elim (find employee_id id s.employees) [
  | none ↦ s
  | some e ↦ record s {
    employees = modify employee_id id bump_version s.employees;
    refresh_tokens = update_where (outstanding id) revoke s.refresh_tokens;
  }
]

module _ (jwt : Jwt) (settings : Settings) (role_value : Role → Text) where
  abbrev pub new_row : ℕ → Text → Bool → Employee → RefreshToken
  new_row now jti remember e = record {
    jti = jti;
    employee_id = e.id;
    revoked = false;
    expires_at = some (now + refresh_seconds settings remember);
  }

  abbrev pub token_pair : ℕ → Text → Bool → Employee → TokenPair
  token_pair now jti remember e = record {
    access_token = create_access_token jwt settings now e.id (role_value e.role) e.email;
    refresh_token =
        create_refresh_token jwt settings now e.id e.refresh_token_version remember (some jti);
    expires_in = settings.access_token_minutes * 60;
  }

  -- `_issue_tokens`
  unfoldable pub issue_tokens : ℕ → Text → Bool → Employee → Action AuthDb TokenPair
  issue_tokens now jti remember e s = (
    ok (token_pair now jti remember e),
    record s { refresh_tokens = s.refresh_tokens ++ new_row now jti remember e ∷ [] },
  )

  unfoldable pub rotate : ℕ → Text → RefreshClaims → Action AuthDb TokenPair
  unfolding issue_tokens
  rotate now jti claims = do
    employee ← (do
      or_raise (← gets (λ s. find employee_id claims.subject s.employees)) unauthorized)
    raise_if (not employee.is_active) unauthorized
    raise_if (not (claims.version == employee.refresh_token_version)) unauthorized
    live ← gets (registered claims.jti)
    raise_if (not live) unauthorized
    modify_state (revoke_jti claims.jti)
    issue_tokens now jti false employee

  unfoldable pub refresh : ℕ → Text → Text → Action AuthDb TokenPair
  refresh now jti token = with_claims (decode_refresh jwt settings now token) (rotate now jti)

  unfoldable pub user_from_access_token : ℕ → Text → Action AuthDb Employee
  user_from_access_token now token = with_claims (decode_access jwt settings now token) (λ claims.
      do
        employee ← (do
          or_raise (← gets (λ s. find employee_id claims.subject s.employees)) unauthorized)
        raise_if (not employee.is_active) unauthorized
        pure employee)

  module _ (checkpw : Text → Text → Option Bool) where
    abbrev accept : ℕ → Text → Bool → Employee → Action AuthDb (AuthenticatedUser × TokenPair)
    accept now jti remember employee = do
      modify_state (write_employee employee.id (record_login now))
      tokens ← issue_tokens now jti remember (record_login now employee)
      pure (to_user (record_login now employee), tokens)

    abbrev reject : Employee → Action AuthDb (AuthenticatedUser × TokenPair)
    reject employee = do modify_state (write_employee employee.id count_failure); raise unauthorized

    unfoldable pub login :
        ℕ → Text → Text → Text → Bool → Action AuthDb (AuthenticatedUser × TokenPair)
    unfolding issue_tokens
    login now jti email password remember = do
      employee ← (do or_raise (← gets (get_by_email email)) unauthorized)
      raise_if (not employee.is_active) unauthorized
      raise_if (leb max_failed_attempts employee.failed_login_attempts) unauthorized
      (if verify checkpw password employee.password_hash
          then accept now jti remember employee
          else reject employee)

    abbrev pub audit : AuditAction → Text → AuthDb → AuthDb
    audit action actor s = record s {
      audit_log = s.audit_log ++ record { action = action; actor = actor } ∷ [];
    }

    -- The endpoint commits what the failed login wrote, with an audit event, before it raises again.
    abbrev pub log_outcome : Text → Result (AuthenticatedUser × TokenPair) × AuthDb → AuthDb
    log_outcome email (ok u, s) = audit Accounts.login u.0.email s
    log_outcome email (err _, s) = audit login_failed email s

    unfoldable pub login_request :
        ℕ → Text → Text → Text → Bool → Action AuthDb (AuthenticatedUser × TokenPair)
    login_request now jti email password remember s =
        let outcome = login now jti email password remember s in
        (outcome.0, log_outcome email outcome)

  -- The other endpoints run in the transaction of the request.
  unfoldable pub refresh_request : ℕ → Text → Text → Action AuthDb TokenPair
  unfolding refresh
  refresh_request now jti token = transaction (refresh now jti token)
