-- ===== src/BuildScript.antt =====
-- jevmalloc-sys/build.rs and jevmalloc-sys/src/env.rs: the build script of the bindings.
pub mod Bytes
pub mod Targets
pub mod Script
pub mod Variables
pub mod Configure
pub mod Compiler
pub mod Override
pub mod Main
pub mod Prefix
