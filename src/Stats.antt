-- ===== src/Stats.antt =====
-- jevmalloc/src/stats.rs: the statistics report, the epoch, and the counters.
pub mod Options
pub mod Buffer
pub mod Print
pub mod Counters
pub mod Report
pub mod Whole
