-- ===== src/Ctl/Key/Names.antt =====
-- The fixed control names of jevmalloc/src/ctl/key.rs, one for each `define_key!`.
-- An accessor `key::arena_purge()` of the source is `key "arena.0.purge"` in the model.
use jevmalloc.Prelude.{String, List, [], ◌∷◌}

unfoldable pub key_names : List String
key_names =
    "epoch" ∷ "background_thread" ∷ "config.cache_oblivious" ∷ "config.debug" ∷ "config.fill"
    ∷ "config.lazy_lock" ∷ "config.malloc_conf" ∷ "config.prof" ∷ "config.prof_libgcc"
    ∷ "config.prof_libunwind" ∷ "config.stats" ∷ "config.utrace" ∷ "config.xmalloc" ∷ "opt.abort"
    ∷ "opt.confirm_conf" ∷ "opt.abort_conf" ∷ "opt.cache_oblivious" ∷ "opt.metadata_thp"
    ∷ "opt.trust_madvise" ∷ "opt.retain" ∷ "opt.dss" ∷ "opt.narenas" ∷ "opt.oversize_threshold"
    ∷ "opt.percpu_arena" ∷ "opt.background_thread" ∷ "opt.max_background_threads"
    ∷ "opt.dirty_decay_ms" ∷ "opt.muzzy_decay_ms" ∷ "opt.lg_extent_max_active_fit"
    ∷ "opt.stats_print" ∷ "opt.stats_print_opts" ∷ "opt.stats_interval" ∷ "opt.stats_interval_opts"
    ∷ "opt.junk" ∷ "opt.zero" ∷ "opt.utrace" ∷ "opt.xmalloc" ∷ "opt.tcache" ∷ "opt.tcache_max"
    ∷ "opt.thp" ∷ "opt.prof_bt_max" ∷ "opt.prof" ∷ "opt.prof_prefix" ∷ "opt.prof_active"
    ∷ "opt.prof_thread_active_init" ∷ "opt.lg_prof_sample" ∷ "opt.prof_accum"
    ∷ "opt.prof_pid_namespace" ∷ "opt.lg_prof_interval" ∷ "opt.prof_gdump" ∷ "opt.prof_final"
    ∷ "opt.prof_leak" ∷ "opt.prof_leak_error" ∷ "opt.zero_realloc"
    ∷ "opt.debug_double_free_max_scan" ∷ "opt.disable_large_size_classes"
    ∷ "opt.process_madvise_max_batch" ∷ "arena.0.purge" ∷ "arena.0.decay" ∷ "arena.0.reset"
    ∷ "arena.0.destroy" ∷ "arena.0.name" ∷ "arena.0.dss" ∷ "arena.0.muzzy_decay_ms"
    ∷ "arena.0.dirty_decay_ms" ∷ "arena.0.retain_grow_limit" ∷ "arena.0.extent_hooks"
    ∷ "arenas.create" ∷ "arenas.lookup" ∷ "arenas.muzzy_decay_ms" ∷ "arenas.dirty_decay_ms"
    ∷ "arenas.narenas" ∷ "arenas.quantum" ∷ "thread.idle" ∷ "thread.arena" ∷ "thread.tcache.flush"
    ∷ "thread.tcache.enabled" ∷ "thread.tcache.max" ∷ "thread.tcache.ncached_max.read_sizeclass"
    ∷ "thread.tcache.ncached_max.write" ∷ "tcache.create" ∷ "tcache.flush" ∷ "tcache.destroy"
    ∷ "prof.reset" ∷ "prof.dump" ∷ "prof.gdump" ∷ "prof.active" ∷ "prof.interval"
    ∷ "thread.prof.active" ∷ "stats.mutexes.reset" ∷ "stats.allocated" ∷ "stats.active"
    ∷ "stats.metadata" ∷ "stats.metadata_thp" ∷ "stats.resident" ∷ "stats.mapped" ∷ "stats.retained"
    ∷ "stats.zero_reallocs" ∷ "stats.background_thread.num_threads"
    ∷ "stats.background_thread.num_runs" ∷ "stats.background_thread.run_interval"
    ∷ "thread.peak.reset" ∷ "thread.peak.read" ∷ "thread.allocated" ∷ "thread.deallocated"
    ∷ "thread.allocatedp" ∷ "thread.deallocatedp" ∷ []
