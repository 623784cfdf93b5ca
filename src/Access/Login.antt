-- ===== src/Access/Login.antt =====
-- What a login with the right password gives (backend/app/services/auth.py).
use wes.Base.{
  ℕ, ◌+◌, ◌≤◌, ◌<◌, ◌≡◌, refl, Bool, true, false, Option, none, some, [], ◌∷◌, ◌++◌, Text,
  text_eq_iff, ok, arith, first, find, modify, UniqueKeys, find_of_first, find-modify_self,
  first-append_none, ltb,
}
use wes.Access.Roles.{Role}
use wes.Access.Tokens.{Jwt, Settings, RefreshClaims, refresh_seconds}
use wes.Access.Accounts.{Employee, employee_id, AuthDb}
use wes.Access.Auth.{
  has_email, has_jti, get_by_email, verify, login, record_login, max_failed_attempts, registered,
  refresh, new_row, token_pair, to_user,
}
use wes.Access.Rotation.{IsLive, rotate-IsLive, refresh-issued}

module _ (jwt : Jwt) (settings : Settings) (role_value : Role → Text)
    (checkpw : Text → Text → Option Bool) where
  abbrev logged_in : ℕ → Text → Bool → Employee → AuthDb → AuthDb
  logged_in now jti remember e s = record s {
    employees = modify employee_id e.id (record_login now) s.employees;
    refresh_tokens =
        s.refresh_tokens
        ++ new_row jwt settings role_value now jti remember (record_login now e) ∷ [];
  }

  module _ (now : ℕ) (jti email password : Text) (remember : Bool) (s : AuthDb) (e : Employee)
      (at_email : get_by_email email s ≡ some e) (live : e.is_active ≡ true)
      (few : e.failed_login_attempts < max_failed_attempts)
      (right : verify checkpw password e.password_hash ≡ true) where
    login_accepted : login jwt settings role_value checkpw now jti email password remember s ≡ (
      ok (
        to_user (record_login now e),
        token_pair jwt settings role_value now jti remember (record_login now e),
      ),
      logged_in now jti remember e s,
    )
    unfolding login
    login_accepted = ground arith

    registered_new :
        first (has_jti jti) s.refresh_tokens ≡ none
        → registered (some jti) (logged_in now jti remember e s) ≡ true
    unfolding registered
    registered_new fresh =
        rw
          (
            first-append_none (has_jti jti) s.refresh_tokens
                (new_row jwt settings role_value now jti remember (record_login now e) ∷ []) fresh,
            registered,
          )
          (ground (arith, text_eq_iff jti jti))

    found_again :
        UniqueKeys employee_id s.employees
        → find employee_id e.id (logged_in now jti remember e s).employees
          ≡ some (record_login now e)
    found_again u =
        rw
          (
            find-modify_self employee_id (record_login now) (λ r. refl) e.id s.employees,
            find_of_first employee_id (has_email email) e s.employees u at_email,
          )
          refl

    -- Where employee keys are unique and the new identifier is unused: a login to an active account
    -- with fewer than five failures, with its password, succeeds, and in the state directly after it,
    -- at any time before the refresh token that it returned expires, a refresh with that token is
    -- accepted and returns a new pair.
    pub login-refresh :
        (later : ℕ) (jti' : Text)
        → UniqueKeys employee_id s.employees
        → first (has_jti jti) s.refresh_tokens ≡ none
        → now ≤ later
        → later < now + refresh_seconds settings remember
        → let tokens = token_pair jwt settings role_value now jti remember (record_login now e) in
          let (r, s') = login jwt settings role_value checkpw now jti email password remember s in
          (r ≡ ok (to_user (record_login now e), tokens))
          × ((refresh jwt settings role_value later jti' tokens.refresh_token s').0
              ≡ ok (token_pair jwt settings role_value later jti' false (record_login now e)))
    login-refresh later jti' u fresh after before =
        let t = logged_in now jti remember e s in
        let claims : RefreshClaims = record {
          subject = e.id;
          version = e.refresh_token_version;
          jti = some jti;
        } in
        let l : IsLive jwt settings role_value claims t = record {
          employee = record_login now e;
          found = found_again u;
          is_active = live;
          current = refl;
          is_registered = registered_new fresh;
        } in
        let q : ltb later (now + refresh_seconds settings remember) ≡ true = ground arith in
        rw login_accepted (
          refl,
          rw
              (
                refresh-issued jwt settings role_value now e.id e.refresh_token_version remember
                    (some jti) later jti' t after,
                q,
                rotate-IsLive jwt settings role_value later jti' claims t l,
              )
              refl,
        )
