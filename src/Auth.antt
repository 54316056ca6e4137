-- ===== src/Auth.antt =====
-- Authentication in crates/mandraked/src/auth.
pub mod Limiter
pub mod External
pub mod Token
pub mod Session
pub mod Extract
pub mod Login
