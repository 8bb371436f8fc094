-- ===== src/Thread.antt =====
-- jevmalloc/src/thread: controls of the calling thread and explicit thread caches.
pub mod Binding
pub mod This
pub mod Cache
pub mod Counters
pub mod Counted
pub mod Keys
pub mod Lifecycle
pub mod Blindness
pub mod Audit
pub mod Owning
