-- ===== src/Extent.antt =====
-- jevmalloc/src/arena/extent_hooks.rs: extent hook tables and their C trampolines.
pub mod Hooks
pub mod Trampolines
pub mod Checked
pub mod Reports
pub mod Install
