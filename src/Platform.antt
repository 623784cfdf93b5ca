-- ===== src/Platform.antt =====
-- The provider platform: its tables, and the services over them
-- (backend/app/services/{providers_service,secret_service,budget_service,provider_platform}.py).
pub mod Float
pub mod State
pub mod Providers
pub mod Usage
pub mod Budget
pub mod Caps
pub mod Defaults
pub mod Mapping
pub mod Billing
pub mod Chain
mod Tests
pub mod Sample
pub mod Cipher
pub mod Sealed
pub mod Secrets
pub mod Runtime
pub mod Opened
pub mod Stowed
pub mod SampleCrypto
