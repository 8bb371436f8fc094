-- ===== src/Profiling.antt =====
-- jevmalloc/src/profiling.rs, and `background_thread_enable` of jevmalloc/src/lib.rs.
pub mod Switches
use jevmalloc.Prelude.{ℕ, Bool}
use jevmalloc.System.{System, Action, ◌>>=◌}
use jevmalloc.Ctl.Raw
use jevmalloc.Ctl.Raw.{get}
use jevmalloc.Ctl.Key.{key}
use jevmalloc.Ctl.Value.{get_bool, xchg_bool}

module _ {W : Type 0} (s : System W) where
  unfoldable pub prof_reset : Action W (Unit {0})
  prof_reset = do k ← key s "prof.reset"; Raw.notify s k

  unfoldable pub prof_dump : Action W (Unit {0})
  prof_dump = do k ← key s "prof.dump"; Raw.notify s k

  unfoldable pub prof_gdump : Bool → Action W Bool
  prof_gdump enable = do k ← key s "prof.gdump"; xchg_bool s k enable

  unfoldable pub prof_enable : Bool → Action W Bool
  prof_enable enable = do k ← key s "prof.active"; xchg_bool s k enable

  unfoldable pub is_prof_enabled : Action W Bool
  is_prof_enabled = do k ← key s "prof.active"; get_bool s k

  unfoldable pub prof_interval : Action W ℕ
  prof_interval = do k ← key s "prof.interval"; get s 8 k

  unfoldable pub background_thread_enable : Bool → Action W Bool
  background_thread_enable enable = do k ← key s "background_thread"; xchg_bool s k enable
