-- ===== src/Access.antt =====
-- Who may do what: roles and permissions, and the sessions of employees.
pub mod Roles
pub mod Tokens
pub mod Accounts
pub mod Auth
pub mod Lockout
pub mod Rotation
pub mod Login
mod SampleJwt
mod Tests
