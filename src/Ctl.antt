-- ===== src/Ctl.antt =====
-- jevmalloc/src/ctl: the control interface.
pub mod Error
pub mod Raw
pub mod Key
pub mod Value
pub mod Messages
pub mod Reading
pub mod Names
pub mod Blindness
pub mod Caching
pub mod Queries
pub mod Table
pub mod Once
pub mod Interleaving
pub mod Schedules
pub mod Visibility
pub mod Coverage
pub mod Publication
