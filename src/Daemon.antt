-- ===== src/Daemon.antt =====
-- What the handlers of crates/mandraked share: the database, the state of the application, the
-- monad of a handler, and the audit log.
pub mod Store
pub mod Handler
pub mod Audit
pub mod Steps
