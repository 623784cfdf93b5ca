-- ===== src/Access/Lockout.antt =====
-- How failed logins lock an account (backend/app/services/auth.py, backend/app/api/v1/auth.py).
use Prim.Native.Nat.{min, max}
use wes.Base.{
  ℕ, ◌+◌, ◌≤◌, ◌<◌, ◌≡◌, refl, Bool, true, false, Option, some, List, [], ◌∷◌, All, length,
  if◌then◌else◌, Text, err, unauthorized, arith, UniqueKeys, first-modify, modify-UniqueKeys,
  first_passes, ap, ltb, inl, inr, Bool-cases,
}
use wes.Access.Roles.{Role}
use wes.Access.Tokens.{Jwt, Settings}
use wes.Access.Accounts.{login_failed, Employee, employee_id, AuthDb}
use wes.Access.Auth.{
  audit, log_outcome, has_email, get_by_email, verify, login, login_request, count_failure,
  write_employee, max_failed_attempts,
}

-- A request to log in: the time, the new token's identifier, the password and `remember`.
pub record Attempt : Type 0 where
  pub now : ℕ
  pub jti : Text
  pub password : Text
  pub remember : Bool

module _ (jwt : Jwt) (settings : Settings) (role_value : Role → Text)
    (checkpw : Text → Text → Option Bool) (email : Text) where
  abbrev pub request : Attempt → AuthDb → AuthDb
  request a s =
      (login_request jwt settings role_value checkpw a.now a.jti email a.password a.remember s).1

  abbrev pub requests : List Attempt → AuthDb → AuthDb
  requests [] s = s
  requests (a ∷ l) s = requests l (request a s)

  abbrev pub IsWrong : Option Text → Attempt → Type 0
  IsWrong hash a = verify checkpw a.password hash ≡ false

  -- The account stands at `n` failures, with this password and active.
  record Stands (hash : Option Text) (n : ℕ) (s : AuthDb) : Type 0 where
    account : Employee
    at_email : get_by_email email s ≡ some account
    is_live : account.is_active ≡ true
    its_hash : account.password_hash ≡ hash
    failures : account.failed_login_attempts ≡ n
    keys : UniqueKeys employee_id s.employees

  module _ (a : Attempt) (s : AuthDb) (e : Employee) (found : get_by_email email s ≡ some e) where
    login_locked :
        max_failed_attempts ≤ e.failed_login_attempts
        → login jwt settings role_value checkpw a.now a.jti email a.password a.remember s
          ≡ (err unauthorized, s)
    unfolding login
    login_locked full = ground arith

    login_wrong :
        e.is_active ≡ true
        → e.failed_login_attempts < max_failed_attempts
        → IsWrong e.password_hash a
        → login jwt settings role_value checkpw a.now a.jti email a.password a.remember s
          ≡ (err unauthorized, write_employee e.id count_failure s)
    unfolding login
    login_wrong live few wrong = ground arith

    counted :
        UniqueKeys employee_id s.employees
        → get_by_email email (write_employee e.id count_failure s) ≡ some (count_failure e)
    counted u =
        first-modify employee_id count_failure (λ r. refl) (has_email email) e s.employees u found
          (first_passes (has_email email) e s.employees found)

  request_refused :
      (a : Attempt) (s t : AuthDb)
      → login jwt settings role_value checkpw a.now a.jti email a.password a.remember s
        ≡ (err unauthorized, t)
      → request a s ≡ audit jwt settings role_value checkpw login_failed email t
  unfolding login_request
  request_refused a s t e = ap (log_outcome jwt settings role_value checkpw email) e

  request-Stands :
      (hash : Option Text) (n : ℕ) (a : Attempt) (s : AuthDb)
      → IsWrong hash a
      → Stands hash n s
      → Stands hash (if ltb n 5 then n + 1 else n) (request a s)
  request-Stands hash n a s wrong h = elim (Bool-cases (ltb n 5)) [
    | inl few ↦
        rw
          (
            few,
            request_refused a s _ (
                login_wrong a s h.account h.at_email h.is_live (ground arith)
                  (rw h.its_hash wrong)),
          )
          (record {
            account = count_failure h.account;
            at_email = counted a s h.account h.at_email h.keys;
            is_live = h.is_live;
            its_hash = h.its_hash;
            failures = ap suc_of h.failures;
            keys =
                modify-UniqueKeys employee_id count_failure (λ r. refl) h.account.id s.employees
                  h.keys;
          })
    | inr full ↦
        rw (full, request_refused a s _ (login_locked a s h.account h.at_email (ground arith)))
          (record {
            account = h.account;
            at_email = h.at_email;
            is_live = h.is_live;
            its_hash = h.its_hash;
            failures = h.failures;
            keys = h.keys;
          })
  ]
    where
      suc_of : ℕ → ℕ
      suc_of k = k + 1

  requests-Stands :
      (hash : Option Text) (n : ℕ) (l : List Attempt) (s : AuthDb)
      → All (IsWrong hash) l
      → Stands hash n s
      → (m : ℕ) × (m ≡ max n (min 5 (n + length l))) × Stands hash m (requests l s)
  requests-Stands hash n [] s wrong h = (n, omega arith, h)
  requests-Stands hash n (a ∷ l) s wrong h =
      let (m, e, h') =
        requests-Stands hash (if ltb n 5 then n + 1 else n) l (request a s) wrong.1
          (request-Stands hash n a s wrong.0 h) in
      (m, ground arith, h')

  -- Where employee keys are unique: once requests with wrong passwords have brought an active
  -- account to five failures, a login under its email is refused, whatever the password, and writes
  -- nothing to the account.
  pub login_locks :
      (l : List Attempt) (last : Attempt) (s : AuthDb) (e : Employee)
      → UniqueKeys employee_id s.employees
      → get_by_email email s ≡ some e
      → e.is_active ≡ true
      → All (IsWrong e.password_hash) l
      → max_failed_attempts ≤ e.failed_login_attempts + length l
      → let s' = requests l s in
        login jwt settings role_value checkpw last.now last.jti email last.password last.remember s'
        ≡ (err unauthorized, s')
  login_locks l last s e u found live wrong enough =
      let (m, total, h) =
        requests-Stands e.password_hash e.failed_login_attempts l s wrong (record {
          account = e;
          at_email = found;
          is_live = live;
          its_hash = refl;
          failures = refl;
          keys = u;
        }) in
      login_locked last (requests l s) h.account h.at_email (omega (arith, h.failures))
