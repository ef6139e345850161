-- ===== src/Auth.antt =====
-- app/lib/auth: the session store, the token manager and the password hasher.
pub mod Session
pub mod Token
pub mod Password
pub mod OauthState
pub mod Google
