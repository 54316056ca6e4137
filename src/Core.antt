-- ===== src/Core.antt =====
-- crates/mandrake-core: identifiers, times, roles, actors and problems, as every other part uses
-- them. An `Ident` is the 128-bit number of its UUID.
pub mod Time
pub mod Shell
pub mod Role
pub mod Problem
