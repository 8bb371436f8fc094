-- ===== src/Config.antt =====
-- jevmalloc/src/config.rs: getters of the build configuration of jemalloc.
use jevmalloc.Prelude.{ℕ, Bool, String}
use jevmalloc.System.{System, Action, ◌>>=◌}
use jevmalloc.Ctl.Key.{key}
use jevmalloc.Ctl.Value.{get_bool, get_cstr}

module _ {W : Type 0} (s : System W) where
  -- The macro `bool_getter!`.
  unfoldable pub bool_getter : String → Action W Bool
  bool_getter name = do k ← key s name; get_bool s k

  unfoldable pub cache_oblivious : Action W Bool
  cache_oblivious = bool_getter "config.cache_oblivious"

  unfoldable pub debug : Action W Bool
  debug = bool_getter "config.debug"

  unfoldable pub fill : Action W Bool
  fill = bool_getter "config.fill"

  unfoldable pub lazy_lock : Action W Bool
  lazy_lock = bool_getter "config.lazy_lock"

  unfoldable pub malloc_conf : Action W ℕ
  malloc_conf = do k ← key s "config.malloc_conf"; get_cstr s k

  unfoldable pub prof : Action W Bool
  prof = bool_getter "config.prof"

  unfoldable pub prof_libgcc : Action W Bool
  prof_libgcc = bool_getter "config.prof_libgcc"

  unfoldable pub prof_libunwind : Action W Bool
  prof_libunwind = bool_getter "config.prof_libunwind"

  unfoldable pub stats : Action W Bool
  stats = bool_getter "config.stats"

  unfoldable pub utrace : Action W Bool
  utrace = bool_getter "config.utrace"

  unfoldable pub xmalloc : Action W Bool
  xmalloc = bool_getter "config.xmalloc"
