-- ===== src/Lib.antt =====
-- A model of the Rust crates jevmalloc and jevmalloc-sys, bindings to the jemalloc allocator.
--
-- The crates add a safe layer to a C library: named controls whose names are translated to integer
-- keys and cached, handles that own arenas and thread caches, a global allocator, extent hooks that
-- call back from C into Rust, and statistics reports. The C library itself is a git submodule and
-- is not modelled: `System` (System/Monad) has a field for each of its entry points that the crates
-- call, over an arbitrary state, and the theorems hold for every such system. What some theorems
-- rely on is a hypothesis: `IsStable` (Ctl/Caching), that translating a name changes nothing and
-- does not depend on the state, that the errno constants `EINVAL` and `EFAULT` are not zero,
-- `IsServing` (Global/Checks), what is documented of served blocks, `IsStatic` (Arena/Precedence),
-- that a C literal can be read back, `IsTranslated` (Arena/Audit and Thread/Audit), what their
-- names translate to, `IsCell` (Arena/Settings), that a control answers with one word and holds
-- what it makes of an accepted value, and `IsCounter` (Thread/Counted), that two controls give a
-- counter and its address.
--
-- An operation of the crates is an `Action`: from a process, which is the state of the library and
-- the statics of the crates, to an outcome and the next process. An outcome is `Ok`, `Err` with an
-- errno value, or a panic, and a panic ends the run: the drops of an unwinding stack are not
-- modelled. `?` is the bind of the actions, so that every early return of the code is in its
-- place.
--
-- Which file models which part, with paths from the root of the repository:
--   System/Target    the targets of jevmalloc/src/global/layout.rs: quantum and word width
--   Flags            jevmalloc-sys/src/flags.rs
--   Ctl/Error        jevmalloc/src/ctl/error.rs, and `into_result` of ctl/raw.rs
--   Ctl/Messages     what `Display` writes for it, and for the errors of failed destructions in
--                    arena/destroy_error.rs and thread/cache/destroy_error.rs; Ctl/Reading reads it
--   Ctl/Raw          jevmalloc/src/ctl/raw.rs: `mibs`, `get`, `set`, `update`, `xchg`, `notify`
--   Ctl/Key          jevmalloc/src/ctl/key.rs and ctl/key/cache.rs; Ctl/Key/Names has the names
--   Ctl/Key/Threads, Ctl/Key/Relaxed   the atomic steps of ctl/key/cache.rs under concurrent callers
--   Ctl/Value        jevmalloc/src/ctl/value.rs
--   Extent/Hooks     the tables of jevmalloc/src/arena/extent_hooks.rs
--   Extent/Trampolines   its C entry points, and Extent/Checked its debug assertions
--   Arena/Index, Arena/Handle, Arena/Controls   jevmalloc/src/arena.rs, arena/destroy_error.rs and
--                    arena/name.rs
--   Arena/Dss        jevmalloc/src/arena/dss.rs
--   Arenas           jevmalloc/src/arenas.rs
--   Thread/Binding, Thread/This   jevmalloc/src/thread/this.rs
--   Thread/Cache     jevmalloc/src/thread/cache.rs and cache/destroy_error.rs
--   Global/Layout, Global/Alloc   jevmalloc/src/global.rs, global/layout.rs and global/hook.rs
--   Global/Audit     a ledger of live blocks beside the state of jemalloc, by the contract that
--                    jevmalloc-sys/src/extended.rs documents; Global/Sessions has the clients of
--                    the global allocator that are held to it, Global/Sessions/Ledger its laws
--   Thread/Counters  jevmalloc/src/thread/counters.rs
--   Opt, Config, Profiling   jevmalloc/src/opt.rs, config.rs and profiling.rs, and
--                    `background_thread_enable` of jevmalloc/src/lib.rs
--   Stats/Options, Stats/Buffer, Stats/Print, Stats/Counters   jevmalloc/src/stats.rs
--   BuildScript      jevmalloc-sys/build.rs and jevmalloc-sys/src/env.rs: Targets, Variables,
--                    Configure (the options of `configure`), Compiler, Override and Main, over
--                    the effects of Script
--   Clients          programs over the controls of all these files: Clients/Programs runs them with
--                    the key caches and without; Clients/Arenas, Threads and Queries have the calls
--   Owners           programs that hold many owning handles, over any kind of handle that keeps the
--                    contract of Owners/Interface, and their ledger; Arena/Audit has the arenas,
--                    Thread/Audit the thread caches
-- The other modules of these directories hold the theorems, and Tests applies them.
--
-- Representation: a Rust or C value that passes the FFI is its bit pattern, a natural number, and
-- its type is the size in bytes; a `c_int` and an `isize` are bit patterns too. A string is the
-- list of its bytes, a name the codes of its ASCII letters. `Key` is the list of the components in
-- use. Pointers are addresses, null is 0; a static hook table is its address and its contents. A
-- callback is a function that may change an environment. Profiles and features are fields of
-- `Build` in Global/Alloc; the trampolines of Extent/Trampolines are those of a release build.
-- Loops are recursions on the list that the code iterates over, so no fuel is used. Ctl/Key has
-- the accessor of a cached key as one action, Ctl/Key/Threads as a machine whose callers take one
-- atomic step at a time in the order of a list of thread numbers, over a sequentially consistent
-- memory, and Ctl/Key/Relaxed as the same machine over a memory that keeps all stores, where each
-- step also picks the store that its load returns, or the place of its store among the others.
--
-- The build script is over a `Platform`, its environment and how what it asks for ends, and leaves
-- the list of what has happened: lines for Cargo, programs, and changes of files. A panic ends it
-- and keeps that list.
--
-- Not modelled: the Debug output of types other than `Error`; on the weak memory, a store that
-- takes effect before an earlier load of its own thread; the declarations of jevmalloc-sys but for
-- the table of extent hooks. In the sessions of Global/Sessions a callback leaves the ledger alone.
-- Of the build script: the lines that Cargo does not read, with the listing of the environment
-- among them, and the lines that the crate `cc` prints itself; the tree of the sources does not
-- change while it is copied; paths are in normal form and printed as their bytes, and an upper-case
-- letter is one of ASCII.
pub mod Prelude
pub mod System
pub mod Flags
pub mod Ctl
pub mod Extent
pub mod Arena
pub mod Thread
pub mod Arenas
pub mod Global
pub mod Stats
pub mod Opt
pub mod Config
pub mod Profiling
pub mod Clients
pub mod Owners
pub mod BuildScript
pub mod Tests
