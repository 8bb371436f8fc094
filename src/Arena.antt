-- ===== src/Arena.antt =====
-- jevmalloc/src/arena.rs and the files below it: arena handles and the controls of one arena.
pub mod Index
pub mod Dss
pub mod Handle
pub mod Controls
pub mod Lifecycle
pub mod Precedence
pub mod Settings
pub mod Blindness
pub mod Audit
pub mod Owning
pub mod Ranges
pub mod Commands
pub mod Targets
