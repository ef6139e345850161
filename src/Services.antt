-- ===== src/Services.antt =====
-- app/services: the use cases, and the world that they act on.
pub mod World
pub mod Auth
pub mod User
pub mod Words
