-- ===== src/Access/Accounts.antt =====
-- backend/app/models/employee.py, backend/app/models/security.py and backend/app/schemas/auth.py:
-- the tables that the authentication service reads and writes. Of an employee the columns that no
-- method of the service reads are left out; of an audit row its action and actor are kept.
use wes.Base.{ℕ, Bool, Option, List, Text}
use wes.Access.Roles.{Role}

pub data EmployeeStatus : Type 0 where
  onboarding active inactive archived : EmployeeStatus

pub record Employee : Type 0 where
  pub id : ℕ
  pub employee_code : Text
  pub full_name : Text
  pub email : Text
  pub department_id : Option ℕ
  pub status : EmployeeStatus
  pub role : Role
  pub password_hash : Option Text
  pub is_active : Bool
  pub last_login : Option ℕ
  pub failed_login_attempts : ℕ
  pub refresh_token_version : ℕ

abbrev pub employee_id : Employee → ℕ
employee_id e = e.id

pub record RefreshToken : Type 0 where
  pub jti : Text
  pub employee_id : ℕ
  pub revoked : Bool
  pub expires_at : Option ℕ

-- The actions that the login endpoint records.
pub data AuditAction : Type 0 where
  login login_failed : AuditAction

pub record AuditLog : Type 0 where
  pub action : AuditAction
  pub actor : Text

pub record AuthDb : Type 0 where
  pub employees : List Employee
  pub refresh_tokens : List RefreshToken
  pub audit_log : List AuditLog

pub record AuthenticatedUser : Type 0 where
  pub id : ℕ
  pub employee_code : Text
  pub full_name : Text
  pub email : Text
  pub role : Role
  pub department_id : Option ℕ
  pub status : EmployeeStatus

pub record TokenPair : Type 0 where
  pub access_token : Text
  pub refresh_token : Text
  pub expires_in : ℕ
