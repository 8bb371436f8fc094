-- ===== src/Global.antt =====
-- jevmalloc/src/global.rs and the files below it: the global allocator.
pub mod Layout
pub mod Alloc
pub mod Valid
pub mod Requests
pub mod Checks
pub mod Audit
pub mod Sessions
