-- ===== src/Tests.antt =====
-- Concrete packages and worlds, and the theorems at them.
pub mod Instances
pub mod Worlds
pub mod Services
pub mod Accounts
pub mod Files
pub mod Endpoints
pub mod Guards
pub mod Libraries
pub mod Values
pub mod Catalogue
pub mod Limits
