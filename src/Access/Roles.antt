-- ===== src/Access/Roles.antt =====
-- backend/app/domain/roles.py, and the guard `require_permission` of backend/app/api/deps.py.
use Prim.Native.Nat.{ℕ, ◌≤◌}
use wes.Base.{
  ◌≡◌, refl, Bool, true, false, List, [], ◌∷◌, ◌++◌, arith, ◌==◌, any, any-append, if◌then◌else◌,
  Result, ok, err, forbidden,
}

pub data Role : Type 0 where
  founder director department_head employee read_only : Role

pub data Permission : Type 0 where
  company_read company_write department_read department_write employee_read : Permission
  employee_write dashboard_read self_read ai_read ai_update ai_manage work_read : Permission
  work_write exec_read exec_write orch_read orch_write knowledge_read : Permission
  knowledge_write knowledge_approve repo_read repo_write dev_read dev_execute : Permission
  dev_approve quality_read quality_review devops_read devops_execute : Permission
  devops_production : Permission

-- `_READS`
abbrev pub reads : List Permission
reads =
    company_read ∷ department_read ∷ employee_read ∷ dashboard_read ∷ self_read ∷ ai_read
    ∷ work_read ∷ exec_read ∷ orch_read ∷ knowledge_read ∷ repo_read ∷ dev_read ∷ quality_read
    ∷ devops_read ∷ []

-- `set(Permission)`
abbrev pub all_permissions : List Permission
all_permissions =
    company_read ∷ company_write ∷ department_read ∷ department_write ∷ employee_read
    ∷ employee_write ∷ dashboard_read ∷ self_read ∷ ai_read ∷ ai_update ∷ ai_manage ∷ work_read
    ∷ work_write ∷ exec_read ∷ exec_write ∷ orch_read ∷ orch_write ∷ knowledge_read
    ∷ knowledge_write ∷ knowledge_approve ∷ repo_read ∷ repo_write ∷ dev_read ∷ dev_execute
    ∷ dev_approve ∷ quality_read ∷ quality_review ∷ devops_read ∷ devops_execute ∷ devops_production
    ∷ []

-- What `ROLE_PERMISSIONS` adds to the reads.
abbrev director_extra : List Permission
director_extra =
    department_write ∷ employee_write ∷ ai_update ∷ work_write ∷ exec_write ∷ knowledge_write
    ∷ knowledge_approve ∷ dev_execute ∷ quality_review ∷ devops_execute ∷ []

abbrev head_extra : List Permission
head_extra = employee_write ∷ ai_update ∷ work_write ∷ exec_write ∷ knowledge_write ∷ []

-- `ROLE_PERMISSIONS`
abbrev pub role_permissions : Role → List Permission
role_permissions founder = all_permissions
role_permissions director = reads ++ director_extra
role_permissions department_head = reads ++ head_extra
role_permissions employee = reads
role_permissions read_only = reads

-- The member's place in the enumeration, by which members are compared.
abbrev place : Permission → ℕ
place company_read = 0
place company_write = 1
place department_read = 2
place department_write = 3
place employee_read = 4
place employee_write = 5
place dashboard_read = 6
place self_read = 7
place ai_read = 8
place ai_update = 9
place ai_manage = 10
place work_read = 11
place work_write = 12
place exec_read = 13
place exec_write = 14
place orch_read = 15
place orch_write = 16
place knowledge_read = 17
place knowledge_write = 18
place knowledge_approve = 19
place repo_read = 20
place repo_write = 21
place dev_read = 22
place dev_execute = 23
place dev_approve = 24
place quality_read = 25
place quality_review = 26
place devops_read = 27
place devops_execute = 28
place devops_production = 29

abbrev pub contains : List Permission → Permission → Bool
contains ps p = any (λ q. place q == place p) ps

unfoldable pub role_has_permission : Role → Permission → Bool
role_has_permission role permission = contains (role_permissions role) permission

-- `require_permission`, for a user with this role.
unfoldable pub require_permission : Permission → Role → Result Role
unfolding role_has_permission
require_permission permission role =
    if role_has_permission role permission then ok role else err forbidden

-- How far down the list of roles, "from most to least privileged".
abbrev pub rank : Role → ℕ
rank founder = 0
rank director = 1
rank department_head = 2
rank employee = 3
rank read_only = 4

founder_has : (p : Permission) → role_has_permission founder p ≡ true
unfolding role_has_permission
founder_has company_read = refl
founder_has _ = refl

director_has :
    (p : Permission)
    → role_has_permission department_head p ≡ true
    → role_has_permission director p ≡ true
unfolding role_has_permission
director_has company_read h = refl
director_has _ h = ground arith

readers_have :
    (r : Role) (p : Permission) → contains reads p ≡ true → role_has_permission r p ≡ true
unfolding role_has_permission
readers_have founder p h = founder_has p
readers_have director p h = any-append (λ q. place q == place p) reads director_extra h
readers_have department_head p h = any-append (λ q. place q == place p) reads head_extra h
readers_have _ p h = h

-- A more privileged role holds every permission that a less privileged one holds.
role_has_permission_mono :
    (r s : Role) (p : Permission)
    → rank r ≤ rank s
    → role_has_permission s p ≡ true
    → role_has_permission r p ≡ true
unfolding role_has_permission
role_has_permission_mono founder s p h g = founder_has p
role_has_permission_mono r employee p h g = readers_have r p g
role_has_permission_mono r read_only p h g = readers_have r p g
role_has_permission_mono director director p h g = g
role_has_permission_mono director department_head p h g = director_has p g
role_has_permission_mono department_head department_head p h g = g
role_has_permission_mono r s p h g = absurd (omega arith)

-- What only the founder may do.
abbrev pub founder_only : List Permission
founder_only =
    company_write ∷ ai_manage ∷ orch_write ∷ repo_write ∷ dev_approve ∷ devops_production ∷ []

abbrev pub is_founder : Role → Bool
is_founder founder = true
is_founder _ = false

-- A guard on writing the company, managing AI employees, writing orchestration or repositories,
-- approving development or deploying to production lets the founder pass and forbids every other
-- role.
pub require_permission-founder_only :
    (p : Permission) (r : Role)
    → contains founder_only p ≡ true
    → require_permission p r ≡ (if is_founder r then ok r else err forbidden)
unfolding require_permission
require_permission-founder_only company_read r h = cc
require_permission-founder_only _ founder h = ground arith
require_permission-founder_only _ director h = ground arith
require_permission-founder_only _ department_head h = ground arith
require_permission-founder_only _ employee h = ground arith
require_permission-founder_only _ read_only h = ground arith
