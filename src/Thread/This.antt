-- ===== src/Thread/This.antt =====
-- jevmalloc/src/thread/this.rs: controls of the calling thread. Its association with an arena is
-- in Thread/Binding.antt.
use jevmalloc.Prelude.{ℕ, ◌+◌, ◌-◌, Bool, String, List, ◌++◌, ltb, if◌then◌else◌, length, replicate}
use jevmalloc.System.{System, Action, lift, usize_bytes, ◌>>=◌}
use jevmalloc.Ctl.Error.{invalid_argument}
use jevmalloc.Ctl.Raw
use jevmalloc.Ctl.Raw.{get, xchg, update}
use jevmalloc.Ctl.Key.{key}
use jevmalloc.Ctl.Value.{get_bool, xchg_bool}
use jevmalloc.Arena.Handle.{current}
use jevmalloc.Arena.Controls

abbrev pub tcache_ncached_max_settings_len : ℕ
tcache_ncached_max_settings_len = 1000

module _ {W : Type 0} (s : System W) where
  unfoldable pub trim : Action W (Unit {0})
  trim = do a ← current s; Controls.trim s a

  unfoldable pub purge : Action W (Unit {0})
  purge = do a ← current s; Controls.purge s a

  unfoldable pub decay : Action W (Unit {0})
  decay = do a ← current s; Controls.decay s a

  unfoldable pub idle : Action W (Unit {0})
  idle = do k ← key s "thread.idle"; Raw.notify s k

  unfoldable pub flush : Action W (Unit {0})
  flush = do k ← key s "thread.tcache.flush"; Raw.notify s k

  unfoldable pub set_muzzy_decay : ℕ → Action W ℕ
  set_muzzy_decay decay_ms = do a ← current s; Controls.set_muzzy_decay s a decay_ms

  unfoldable pub get_muzzy_decay : Action W ℕ
  get_muzzy_decay = do a ← current s; Controls.muzzy_decay s a

  unfoldable pub set_dirty_decay : ℕ → Action W ℕ
  set_dirty_decay decay_ms = do a ← current s; Controls.set_dirty_decay s a decay_ms

  unfoldable pub get_dirty_decay : Action W ℕ
  get_dirty_decay = do a ← current s; Controls.dirty_decay s a

  unfoldable pub cache_enable : Bool → Action W Bool
  cache_enable enable = do k ← key s "thread.tcache.enabled"; xchg_bool s k enable

  unfoldable pub is_cache_enabled : Action W Bool
  is_cache_enabled = do k ← key s "thread.tcache.enabled"; get_bool s k

  unfoldable pub tcache_max : Action W ℕ
  tcache_max = do k ← key s "thread.tcache.max"; get s (usize_bytes s.arch) k

  unfoldable pub set_tcache_max : ℕ → Action W ℕ
  set_tcache_max max = do k ← key s "thread.tcache.max"; xchg s (usize_bytes s.arch) k max

  unfoldable pub tcache_ncached_max : ℕ → Action W ℕ
  tcache_ncached_max size_class = do
    k ← key s "thread.tcache.ncached_max.read_sizeclass"
    update s (usize_bytes s.arch) (usize_bytes s.arch) k size_class

  -- `set_tcache_ncached_max`, on the bytes of the string without its terminator.
  unfoldable pub set_tcache_ncached_max : List ℕ → Action W (Unit {0})
  set_tcache_ncached_max settings =
      if ltb tcache_ncached_max_settings_len (length settings + 1)
      then lift (invalid_argument s.errno)
      else (do
        k ← key s "thread.tcache.ncached_max.write"
        Raw.set s (usize_bytes s.arch) k (
            s.local_buffer
              (settings ++ replicate (tcache_ncached_max_settings_len - length settings) 0)))

  -- Profiling and statistics of the thread.
  unfoldable pub prof_enable : Bool → Action W Bool
  prof_enable enable = do k ← key s "thread.prof.active"; xchg_bool s k enable

  unfoldable pub is_prof_enabled : Action W Bool
  is_prof_enabled = do k ← key s "thread.prof.active"; get_bool s k

  unfoldable pub reset_peak : Action W (Unit {0})
  reset_peak = do k ← key s "thread.peak.reset"; Raw.notify s k

  -- `u64` counters.
  unfoldable pub get_u64 : String → Action W ℕ
  get_u64 name = do k ← key s name; get s 8 k

  unfoldable pub peak : Action W ℕ
  peak = get_u64 "thread.peak.read"

  unfoldable pub allocated : Action W ℕ
  allocated = get_u64 "thread.allocated"

  unfoldable pub deallocated : Action W ℕ
  deallocated = get_u64 "thread.deallocated"
