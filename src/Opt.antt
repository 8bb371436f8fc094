-- ===== src/Opt.antt =====
-- jevmalloc/src/opt.rs: getters of the startup options, one for each use of the three macros.
-- The type of a scalar stands for its size in bytes, and a C string for its address.
pub mod Answers
use jevmalloc.Prelude.{ℕ, Bool, String}
use jevmalloc.System.{System, Action, usize_bytes, ◌>>=◌}
use jevmalloc.Ctl.Raw.{get}
use jevmalloc.Ctl.Key.{key}
use jevmalloc.Ctl.Value.{get_bool, get_cstr}
use jevmalloc.Arena.Index.{uint_bytes}

module _ {W : Type 0} (s : System W) where
  -- The macros `bool_getter!`, `scalar_getter!` and `cstr_getter!`.
  unfoldable pub bool_getter : String → Action W Bool
  bool_getter name = do k ← key s name; get_bool s k

  unfoldable pub scalar_getter : ℕ → String → Action W ℕ
  scalar_getter size name = do k ← key s name; get s size k

  unfoldable pub cstr_getter : String → Action W ℕ
  cstr_getter name = do k ← key s name; get_cstr s k

  unfoldable pub abort : Action W Bool
  abort = bool_getter "opt.abort"

  unfoldable pub confirm_conf : Action W Bool
  confirm_conf = bool_getter "opt.confirm_conf"

  unfoldable pub abort_conf : Action W Bool
  abort_conf = bool_getter "opt.abort_conf"

  unfoldable pub cache_oblivious : Action W Bool
  cache_oblivious = bool_getter "opt.cache_oblivious"

  unfoldable pub metadata_thp : Action W ℕ
  metadata_thp = cstr_getter "opt.metadata_thp"

  unfoldable pub trust_madvise : Action W Bool
  trust_madvise = bool_getter "opt.trust_madvise"

  unfoldable pub retain : Action W Bool
  retain = bool_getter "opt.retain"

  unfoldable pub dss : Action W ℕ
  dss = cstr_getter "opt.dss"

  unfoldable pub narenas : Action W ℕ
  narenas = scalar_getter uint_bytes "opt.narenas"

  unfoldable pub oversize_threshold : Action W ℕ
  oversize_threshold = scalar_getter (usize_bytes s.arch) "opt.oversize_threshold"

  unfoldable pub percpu_arena : Action W ℕ
  percpu_arena = cstr_getter "opt.percpu_arena"

  unfoldable pub background_thread : Action W Bool
  background_thread = bool_getter "opt.background_thread"

  unfoldable pub max_background_threads : Action W ℕ
  max_background_threads = scalar_getter (usize_bytes s.arch) "opt.max_background_threads"

  unfoldable pub dirty_decay_ms : Action W ℕ
  dirty_decay_ms = scalar_getter (usize_bytes s.arch) "opt.dirty_decay_ms"

  unfoldable pub muzzy_decay_ms : Action W ℕ
  muzzy_decay_ms = scalar_getter (usize_bytes s.arch) "opt.muzzy_decay_ms"

  unfoldable pub lg_extent_max_active_fit : Action W ℕ
  lg_extent_max_active_fit = scalar_getter (usize_bytes s.arch) "opt.lg_extent_max_active_fit"

  unfoldable pub stats_print : Action W Bool
  stats_print = bool_getter "opt.stats_print"

  unfoldable pub stats_print_opts : Action W ℕ
  stats_print_opts = cstr_getter "opt.stats_print_opts"

  unfoldable pub stats_interval : Action W ℕ
  stats_interval = scalar_getter 8 "opt.stats_interval"

  unfoldable pub stats_interval_opts : Action W ℕ
  stats_interval_opts = cstr_getter "opt.stats_interval_opts"

  unfoldable pub junk : Action W ℕ
  junk = cstr_getter "opt.junk"

  unfoldable pub zero : Action W Bool
  zero = bool_getter "opt.zero"

  unfoldable pub utrace : Action W Bool
  utrace = bool_getter "opt.utrace"

  unfoldable pub xmalloc : Action W Bool
  xmalloc = bool_getter "opt.xmalloc"

  unfoldable pub tcache : Action W Bool
  tcache = bool_getter "opt.tcache"

  unfoldable pub tcache_max : Action W ℕ
  tcache_max = scalar_getter (usize_bytes s.arch) "opt.tcache_max"

  unfoldable pub thp : Action W ℕ
  thp = cstr_getter "opt.thp"

  unfoldable pub prof_bt_max : Action W ℕ
  prof_bt_max = scalar_getter uint_bytes "opt.prof_bt_max"

  unfoldable pub prof : Action W Bool
  prof = bool_getter "opt.prof"

  unfoldable pub prof_prefix : Action W ℕ
  prof_prefix = cstr_getter "opt.prof_prefix"

  unfoldable pub prof_active : Action W Bool
  prof_active = bool_getter "opt.prof_active"

  unfoldable pub prof_thread_active_init : Action W Bool
  prof_thread_active_init = bool_getter "opt.prof_thread_active_init"

  unfoldable pub lg_prof_sample : Action W ℕ
  lg_prof_sample = scalar_getter (usize_bytes s.arch) "opt.lg_prof_sample"

  unfoldable pub prof_accum : Action W Bool
  prof_accum = bool_getter "opt.prof_accum"

  unfoldable pub prof_pid_namespace : Action W Bool
  prof_pid_namespace = bool_getter "opt.prof_pid_namespace"

  unfoldable pub lg_prof_interval : Action W ℕ
  lg_prof_interval = scalar_getter (usize_bytes s.arch) "opt.lg_prof_interval"

  unfoldable pub prof_gdump : Action W Bool
  prof_gdump = bool_getter "opt.prof_gdump"

  unfoldable pub prof_final : Action W Bool
  prof_final = bool_getter "opt.prof_final"

  unfoldable pub prof_leak : Action W Bool
  prof_leak = bool_getter "opt.prof_leak"

  unfoldable pub prof_leak_error : Action W Bool
  prof_leak_error = bool_getter "opt.prof_leak_error"

  unfoldable pub zero_realloc : Action W ℕ
  zero_realloc = cstr_getter "opt.zero_realloc"

  unfoldable pub debug_double_free_max_scan : Action W ℕ
  debug_double_free_max_scan = scalar_getter uint_bytes "opt.debug_double_free_max_scan"

  unfoldable pub disable_large_size_classes : Action W Bool
  disable_large_size_classes = bool_getter "opt.disable_large_size_classes"

  unfoldable pub process_madvise_max_batch : Action W ℕ
  process_madvise_max_batch = scalar_getter (usize_bytes s.arch) "opt.process_madvise_max_batch"
