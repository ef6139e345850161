-- ===== src/Repository.antt =====
-- app/repository: what the services see of the tables, with database errors as application errors.
pub mod Users
pub mod Tokens
pub mod Words
pub mod WordSenses
