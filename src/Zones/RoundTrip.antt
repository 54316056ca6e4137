-- ===== src/Zones/RoundTrip.antt =====
-- The commands that create a zone, read by the parser of `zonecfg export`
-- (crates/mandrake-zones/src/parse.rs).
pub mod Settings
pub mod Blocks
pub mod Kinds
pub mod Values
pub mod Nics
pub mod Keys
pub mod Caps
pub mod FileSystems
pub mod Each
pub mod Create
