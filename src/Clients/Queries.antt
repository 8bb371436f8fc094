-- ===== src/Clients/Queries.antt =====
-- The calls of a client that concern options, the build configuration, statistics and profiling:
-- jevmalloc/src/opt.rs, config.rs, stats.rs, profiling.rs and lib.rs. The getters of options and of
-- statistics are called at any name, not only at those that the crate has them for.
use jevmalloc.Prelude.{ℕ, Bool, String, List, take}
use jevmalloc.System.{System, Action, ok, usize_bytes}
use jevmalloc.Ctl.Caching.{IsStable}
use jevmalloc.Ctl.Blindness.{
  IsBlind, read-IsBlind, exchange-IsBlind, bare_command-IsBlind, read_flag-IsBlind, switch-IsBlind,
  on_key-IsBlind, get_cstr-IsBlind, on_outcome-IsBlind, bind-IsBlind, on_world-IsBlind,
  lift-IsBlind,
}
use jevmalloc.Opt
use jevmalloc.Config
use jevmalloc.Profiling
use jevmalloc.Stats.Counters
use jevmalloc.Stats.Print.{print_raw, print}
use jevmalloc.Stats.Options.{normalize_options}
use jevmalloc.Stats.Buffer.{new, write_all, finish}
use jevmalloc.Clients.Answers.{Answer, number, flag, text, no_value, answered, answered-IsBlind}

pub data QueryCall : Type 0 where
  option_flag build_flag option_string statistic statistic_u64 : String → QueryCall
  option_number : ℕ → String → QueryCall
  malloc_conf epoch refresh_epoch stats_reset prof_reset prof_dump : QueryCall
  is_prof_enabled prof_interval : QueryCall
  prof_gdump prof_enable background_thread_enable : Bool → QueryCall
  report : List ℕ → List ℕ → QueryCall

module _ {W : Type 0} (s : System W) where
  unfoldable pub perform_query : QueryCall → Action W Answer
  perform_query (option_flag name) = answered flag (Opt.bool_getter s name)
  perform_query (build_flag name) = answered flag (Config.bool_getter s name)
  perform_query (option_string name) = answered number (Opt.cstr_getter s name)
  perform_query (statistic name) = answered number (Counters.get_size s name)
  perform_query (statistic_u64 name) = answered number (Counters.get_u64 s name)
  perform_query (option_number size name) = answered number (Opt.scalar_getter s size name)
  perform_query malloc_conf = answered number (Config.malloc_conf s)
  perform_query epoch = answered number (Counters.epoch s)
  perform_query refresh_epoch = answered number (Counters.refresh_epoch s)
  perform_query stats_reset = answered no_value (Counters.stats_reset s)
  perform_query prof_reset = answered no_value (Profiling.prof_reset s)
  perform_query prof_dump = answered no_value (Profiling.prof_dump s)
  perform_query is_prof_enabled = answered flag (Profiling.is_prof_enabled s)
  perform_query prof_interval = answered number (Profiling.prof_interval s)
  perform_query (prof_gdump v) = answered flag (Profiling.prof_gdump s v)
  perform_query (prof_enable v) = answered flag (Profiling.prof_enable s v)
  perform_query (background_thread_enable v) =
      answered flag (Profiling.background_thread_enable s v)
  perform_query (report opts buf) = answered text (print s opts buf)

  print_raw-IsBlind : (opts : List ℕ) → IsBlind s (print_raw s opts)
  unfolding print_raw
  print_raw-IsBlind opts =
      on_world-IsBlind s
        λ w. let (fragments, w') = s.malloc_stats_print opts w in (ok fragments, w')

  print-IsBlind : (opts buf : List ℕ) → IsBlind s (print s opts buf)
  unfolding print
  print-IsBlind opts buf = on_outcome-IsBlind s (normalize_options s.errno opts) _ λ o.
      bind-IsBlind s (print_raw s (take o.1 o.0)) _ (print_raw-IsBlind (take o.1 o.0))
        λ fragments. lift-IsBlind s (finish s (write_all s (new buf) fragments))

  module _ (st : IsStable s) where
    read_string-IsBlind : (name : String) → IsBlind s (Opt.cstr_getter s name)
    unfolding Opt.cstr_getter
    read_string-IsBlind name = on_key-IsBlind s st name _ λ k. get_cstr-IsBlind s k

    pub perform_query-IsBlind : (c : QueryCall) → IsBlind s (perform_query c)
    unfolding perform_query Opt.bool_getter Config.bool_getter Counters.get_size Counters.get_u64
        Opt.scalar_getter Opt.cstr_getter Config.malloc_conf Counters.epoch Counters.refresh_epoch
        Counters.stats_reset Profiling.prof_reset Profiling.prof_dump Profiling.is_prof_enabled
        Profiling.prof_interval Profiling.prof_gdump Profiling.prof_enable
        Profiling.background_thread_enable
    perform_query-IsBlind (option_flag name) =
        answered-IsBlind s flag _ (read_flag-IsBlind s st name)
    perform_query-IsBlind (build_flag name) =
        answered-IsBlind s flag _ (read_flag-IsBlind s st name)
    perform_query-IsBlind (option_string name) =
        answered-IsBlind s number _ (read_string-IsBlind name)
    perform_query-IsBlind (statistic name) =
        answered-IsBlind s number _ (read-IsBlind s st (usize_bytes s.arch) name)
    perform_query-IsBlind (statistic_u64 name) =
        answered-IsBlind s number _ (read-IsBlind s st 8 name)
    perform_query-IsBlind (option_number size name) =
        answered-IsBlind s number _ (read-IsBlind s st size name)
    perform_query-IsBlind malloc_conf =
        answered-IsBlind s number _ (read_string-IsBlind "config.malloc_conf")
    perform_query-IsBlind epoch = answered-IsBlind s number _ (read-IsBlind s st 8 "epoch")
    perform_query-IsBlind refresh_epoch =
        answered-IsBlind s number _ (exchange-IsBlind s st 8 "epoch" 0)
    perform_query-IsBlind stats_reset =
        answered-IsBlind s no_value _ (bare_command-IsBlind s st "stats.mutexes.reset")
    perform_query-IsBlind prof_reset =
        answered-IsBlind s no_value _ (bare_command-IsBlind s st "prof.reset")
    perform_query-IsBlind prof_dump =
        answered-IsBlind s no_value _ (bare_command-IsBlind s st "prof.dump")
    perform_query-IsBlind is_prof_enabled =
        answered-IsBlind s flag _ (read_flag-IsBlind s st "prof.active")
    perform_query-IsBlind prof_interval =
        answered-IsBlind s number _ (read-IsBlind s st 8 "prof.interval")
    perform_query-IsBlind (prof_gdump v) =
        answered-IsBlind s flag _ (switch-IsBlind s st "prof.gdump" v)
    perform_query-IsBlind (prof_enable v) =
        answered-IsBlind s flag _ (switch-IsBlind s st "prof.active" v)
    perform_query-IsBlind (background_thread_enable v) =
        answered-IsBlind s flag _ (switch-IsBlind s st "background_thread" v)
    perform_query-IsBlind (report opts buf) = answered-IsBlind s text _ (print-IsBlind opts buf)
