-- ===== src/System.antt =====
-- What the crate calls and does not implement, and the state that its operations share.
-- The jemalloc library is a git submodule of the repository: its entry points are the fields of
-- `System`, over a state `W` of the library's own. `Process` adds the crate's statics.
mod Target
mod Monad
pub use Monad.*
pub use Target.{Arch}
unfoldable pub use Target.{quantum, usize_bits, usize_bytes}
