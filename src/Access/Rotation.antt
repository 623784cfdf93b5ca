-- ===== src/Access/Rotation.antt =====
-- The life of a refresh token: issued by a login, used once, ended by a logout
-- (backend/app/services/auth.py).
use wes.Base.{
  ℕ, ◌+◌, ◌≤◌, ◌≡◌, refl, Bool, true, false, Option, some, List, [], ◌∷◌, ◌++◌, if◌then◌else◌, ◌==◌,
  ◌⊎◌, Text, ok, err, unauthorized, arith, first, find, update_where, find-modify_self,
  first-append, first-update_where, first_passes, inl, inr, Bool-cases, Option-cases, ltb, is_ok,
}
use wes.Access.Roles.{Role}
use wes.Access.Tokens.{
  Jwt, Settings, RefreshClaims, refresh_seconds, create_refresh_token, decode-create_refresh_token,
}
use wes.Access.Accounts.{Employee, employee_id, RefreshToken, AuthDb}
use wes.Access.Auth.{
  has_jti, revoke, registered, revoke_jti, rotate, refresh, logout, new_row, token_pair,
  bump_version,
}

found_after_logout :
    (id : ℕ) (s : AuthDb) (e : Employee)
    → find employee_id id s.employees ≡ some e
    → find employee_id id (logout id s).employees ≡ some (bump_version e)
unfolding logout
found_after_logout id s e found =
    rw (found, logout)
      (rw (find-modify_self employee_id bump_version (λ r. refl) id s.employees, found) refl)

revoked_stays :
    (key : Text) (row : RefreshToken) (t u : List RefreshToken)
    → first (has_jti key) t ≡ some row
    → first (has_jti key) (update_where (has_jti key) revoke t ++ u) ≡ some (revoke row)
revoked_stays key row t u h =
    first-append (has_jti key) (update_where (has_jti key) revoke t) u (revoke row) (
      rw (first_passes (has_jti key) row t h) at
        (first-update_where (has_jti key) (has_jti key) revoke t row (λ x. ground arith) h))

-- A token whose row was revoked is not registered any more, whatever rows are added.
unregistered :
    (key : Text) (s : AuthDb) (u : List RefreshToken)
    → registered (some key) s ≡ true
    → let t = revoke_jti (some key) s in
      registered (some key) (record t { refresh_tokens = t.refresh_tokens ++ u }) ≡ false
unfolding registered revoke_jti
unregistered key s u r = elim (Option-cases (first (has_jti key) s.refresh_tokens)) [
  | inl e ↦ ground arith
  | inr (row, e) ↦ rw (revoked_stays key row s.refresh_tokens u e, registered) refl
]

module _ (jwt : Jwt) (settings : Settings) (role_value : Role → Text) where
  pub record IsLive (claims : RefreshClaims) (s : AuthDb) : Type 0 where
    pub employee : Employee
    pub found : find employee_id claims.subject s.employees ≡ some employee
    pub is_active : employee.is_active ≡ true
    pub current : claims.version ≡ employee.refresh_token_version
    pub is_registered : registered claims.jti s ≡ true

  pub rotate-IsLive :
      (now : ℕ) (jti : Text) (claims : RefreshClaims) (s : AuthDb) (live : IsLive claims s)
      → let t = revoke_jti claims.jti s in
        rotate jwt settings role_value now jti claims s ≡ (
          ok (token_pair jwt settings role_value now jti false live.employee),
          record t {
            refresh_tokens =
                t.refresh_tokens
                ++ new_row jwt settings role_value now jti false live.employee ∷ [];
          },
        )
  unfolding rotate
  rotate-IsLive now jti claims s live = ground arith

  -- A rotation is refused and changes nothing, or the claims are live.
  rotate_cases :
      (now : ℕ) (jti : Text) (claims : RefreshClaims) (s : AuthDb)
      → (rotate jwt settings role_value now jti claims s ≡ (err unauthorized, s)) ⊎ IsLive claims s
  unfolding rotate
  rotate_cases now jti claims s =
      elim (Option-cases (find employee_id claims.subject s.employees)) [
        | inl e ↦ inl (ground arith)
        | inr (e, found) ↦ elim (Bool-cases e.is_active) [
          | inr dead ↦ inl (ground arith)
          | inl live ↦ elim (Bool-cases (claims.version == e.refresh_token_version)) [
            | inr old ↦ inl (ground arith)
            | inl current ↦ elim (Bool-cases (registered claims.jti s)) [
              | inr used ↦ inl (ground arith)
              | inl r ↦ inr (record {
                employee = e;
                found = found;
                is_active = live;
                current = ground arith;
                is_registered = r;
              })
            ]
          ]
        ]
      ]

  module _ (made subject version : ℕ) (remember : Bool) (jti : Option Text) where
    abbrev pub issued : Text
    issued = create_refresh_token jwt settings made subject version remember jti

    -- What `refresh` does with a token of the service: refuse it when it has expired, else rotate.
    pub refresh-issued :
        (now : ℕ) (j : Text) (s : AuthDb)
        → made ≤ now
        → refresh jwt settings role_value now j issued s ≡ (
            if ltb now (made + refresh_seconds settings remember)
            then rotate jwt settings role_value now j
                (record { subject = subject; version = version; jti = jti })
                s
            else (err unauthorized, s))
    unfolding refresh
    refresh-issued now j s h =
        rw (decode-create_refresh_token jwt settings made now subject version remember jti h).0
          (elim (Bool-cases (ltb now (made + refresh_seconds settings remember))) [
            | inl e ↦ rw e refl
            | inr e ↦ rw e refl
          ])

    -- So a refresh that rotates to a refusal is a refusal.
    refresh_refused :
        (now : ℕ) (j : Text) (s : AuthDb)
        → made ≤ now
        → rotate jwt settings role_value now j
            (record { subject = subject; version = version; jti = jti })
            s
          ≡ (err unauthorized, s)
        → refresh jwt settings role_value now j issued s ≡ (err unauthorized, s)
    refresh_refused now j s h e = rw (refresh-issued now j s h, e) (ground arith)

  rotate_dead :
      (now : ℕ) (j : Text) (claims : RefreshClaims) (s : AuthDb)
      → ¬ IsLive claims s
      → rotate jwt settings role_value now j claims s ≡ (err unauthorized, s)
  rotate_dead now j claims s dead = elim (rotate_cases now j claims s) [
    | inl e ↦ e
    | inr live ↦ absurd (dead live)
  ]

  -- After a logout, a refresh token that the employee was issued before is refused, at any time and
  -- with any registration.
  pub refresh-logout :
      (made now id version : ℕ) (remember : Bool) (jti : Option Text) (j : Text) (s : AuthDb)
      (e : Employee)
      → made ≤ now
      → find employee_id id s.employees ≡ some e
      → version ≤ e.refresh_token_version
      → let token = create_refresh_token jwt settings made id version remember jti in
        refresh jwt settings role_value now j token (logout id s) ≡ (err unauthorized, logout id s)
  refresh-logout made now id version remember jti j s e h found old =
      refresh_refused made id version remember jti now j (logout id s) h
        (rotate_dead now j _ (logout id s) (λ live. outdated live))
    where
      outdated : IsLive (record { subject = id; version = version; jti = jti }) (logout id s) → ⊥
      outdated live = ground (arith, found_after_logout id s e found, live.found, live.current)

  -- A rotation that succeeds takes the token it was given out of the registry.
  rotate_consumes :
      (now : ℕ) (j key : Text) (subject version : ℕ) (s : AuthDb)
      → let claims : RefreshClaims = record {
        subject = subject;
        version = version;
        jti = some key;
      } in
        let (r, s') = rotate jwt settings role_value now j claims s in
        is_ok r ≡ true → registered (some key) s' ≡ false
  rotate_consumes now j key subject version s done =
      let claims : RefreshClaims = record {
        subject = subject;
        version = version;
        jti = some key;
      } in
      elim (rotate_cases now j claims s) [
        | inl e ↦ cc (rw e at done)
        | inr live ↦
            rw (rotate-IsLive now j claims s live) (unregistered key s _ live.is_registered)
      ]

  refresh_consumes :
      (made now subject version : ℕ) (remember : Bool) (key j : Text) (s : AuthDb)
      → made ≤ now
      → let token = create_refresh_token jwt settings made subject version remember (some key) in
        let (r, s') = refresh jwt settings role_value now j token s in
        is_ok r ≡ true → registered (some key) s' ≡ false
  refresh_consumes made now subject version remember key j s h done =
      elim (Bool-cases (ltb now (made + refresh_seconds settings remember))) [
        | inl e ↦
            let q : refresh jwt settings role_value now j
                  (issued made subject version remember (some key)) s
                ≡ rotate jwt settings role_value now j
                    (record { subject = subject; version = version; jti = some key }) s =
              rw e at (refresh-issued made subject version remember (some key) now j s h) in
            rw q (rotate_consumes now j key subject version s (rw q at done))
        | inr e ↦
            let q : refresh jwt settings role_value now j
                  (issued made subject version remember (some key)) s
                ≡ (err unauthorized, s) =
              rw e at (refresh-issued made subject version remember (some key) now j s h) in
            cc (rw q at done)
      ]

  -- A registered refresh token serves once: after a refresh with it has succeeded, it is refused,
  -- at any time, and the refusal changes nothing.
  pub refresh_once :
      (made now later subject version : ℕ) (remember : Bool) (key j j' : Text) (s : AuthDb)
      → made ≤ now
      → made ≤ later
      → let token = create_refresh_token jwt settings made subject version remember (some key) in
        is_ok (refresh jwt settings role_value now j token s).0 ≡ true
        → let s' = (refresh jwt settings role_value now j token s).1 in
          refresh jwt settings role_value later j' token s' ≡ (err unauthorized, s')
  refresh_once made now later subject version remember key j j' s h h' done =
      refresh_refused made subject version remember (some key) later j' s' h'
        (rotate_dead later j' claims s' (λ live. used live))
    where
      token : Text
      token = create_refresh_token jwt settings made subject version remember (some key)

      s' : AuthDb
      s' = (refresh jwt settings role_value now j token s).1

      claims : RefreshClaims
      claims = record { subject = subject; version = version; jti = some key }

      used : IsLive claims s' → ⊥
      used live =
          cc (live.is_registered, refresh_consumes made now subject version remember key j s h done)
