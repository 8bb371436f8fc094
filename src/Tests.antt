-- ===== src/Tests.antt =====
-- A small system on which the theorems are applied: jemalloc as a log of the keys it was called with.
pub mod Toy
mod Control
mod Threads
mod Memory
mod Arenas
mod Caches
mod Modes
mod Settings
mod Options
mod Reports
mod Blocks
mod Owners
mod Programs
mod Messages
mod Sessions
mod Build
mod Hooks
