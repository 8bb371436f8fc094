-- ===== src/Clients/Threads.antt =====
-- The calls of a client that concern the calling thread and thread caches: jevmalloc/src/thread.
use jevmalloc.Prelude.{ℕ, Bool, List}
use jevmalloc.System.{System, Action, usize_bytes}
use jevmalloc.Ctl.Caching.{IsStable}
use jevmalloc.Ctl.Blindness.{
  IsBlind, read-IsBlind, exchange-IsBlind, bare_command-IsBlind, read_flag-IsBlind, switch-IsBlind,
}
use jevmalloc.Thread.This
use jevmalloc.Thread.Binding
use jevmalloc.Thread.Cache.{ThreadCache}
use jevmalloc.Thread.Cache
use jevmalloc.Thread.Counters
use jevmalloc.Thread.Blindness
use jevmalloc.Thread.Blindness.Caches
use jevmalloc.Arena.Blindness as ArenaBlindness
use jevmalloc.Clients.Answers.{
  Answer, number, flag, cache, counters, cache_ended, no_value, answered, answered-IsBlind,
}

pub data ThreadCall : Type 0 where
  trim purge decay idle flush reset_peak get_muzzy_decay get_dirty_decay : ThreadCall
  is_cache_enabled is_prof_enabled tcache_max arena_id peak allocated deallocated : ThreadCall
  current_counters : ThreadCall
  cache_enable prof_enable : Bool → ThreadCall
  set_muzzy_decay set_dirty_decay set_tcache_max tcache_ncached_max set_arena : ℕ → ThreadCall
  set_tcache_ncached_max : List ℕ → ThreadCall

pub data CacheCall : Type 0 where
  create : CacheCall
  flush_cache try_destroy drop : ThreadCache → CacheCall

module _ {W : Type 0} (s : System W) where
  unfoldable pub perform_thread : ThreadCall → Action W Answer
  perform_thread trim = answered no_value (This.trim s)
  perform_thread purge = answered no_value (This.purge s)
  perform_thread decay = answered no_value (This.decay s)
  perform_thread idle = answered no_value (This.idle s)
  perform_thread flush = answered no_value (This.flush s)
  perform_thread reset_peak = answered no_value (This.reset_peak s)
  perform_thread get_muzzy_decay = answered number (This.get_muzzy_decay s)
  perform_thread get_dirty_decay = answered number (This.get_dirty_decay s)
  perform_thread is_cache_enabled = answered flag (This.is_cache_enabled s)
  perform_thread is_prof_enabled = answered flag (This.is_prof_enabled s)
  perform_thread tcache_max = answered number (This.tcache_max s)
  perform_thread arena_id = answered number (Binding.arena_id s)
  perform_thread peak = answered number (This.peak s)
  perform_thread allocated = answered number (This.allocated s)
  perform_thread deallocated = answered number (This.deallocated s)
  perform_thread current_counters = answered counters (Counters.current s)
  perform_thread (cache_enable v) = answered flag (This.cache_enable s v)
  perform_thread (prof_enable v) = answered flag (This.prof_enable s v)
  perform_thread (set_muzzy_decay v) = answered number (This.set_muzzy_decay s v)
  perform_thread (set_dirty_decay v) = answered number (This.set_dirty_decay s v)
  perform_thread (set_tcache_max v) = answered number (This.set_tcache_max s v)
  perform_thread (tcache_ncached_max v) = answered number (This.tcache_ncached_max s v)
  perform_thread (set_arena id) = answered number (Binding.set_arena s id)
  perform_thread (set_tcache_ncached_max t) = answered no_value (This.set_tcache_ncached_max s t)

  unfoldable pub perform_cache : CacheCall → Action W Answer
  perform_cache create = answered cache (Cache.create s)
  perform_cache (flush_cache c) = answered no_value (Cache.flush s c)
  perform_cache (try_destroy c) = answered cache_ended (Caches.attempted s c)
  perform_cache (drop c) = answered no_value (Caches.dropped s c)

  module _ (st : IsStable s) where
    pub perform_thread-IsBlind : (c : ThreadCall) → IsBlind s (perform_thread c)
    unfolding perform_thread This.idle This.flush This.reset_peak This.is_cache_enabled
        This.is_prof_enabled This.tcache_max This.peak This.allocated This.deallocated This.get_u64
        This.cache_enable This.prof_enable This.set_tcache_max
    perform_thread-IsBlind trim = answered-IsBlind s no_value _ (Blindness.trim-IsBlind s st)
    perform_thread-IsBlind purge = answered-IsBlind s no_value _ (Blindness.purge-IsBlind s st)
    perform_thread-IsBlind decay = answered-IsBlind s no_value _ (Blindness.decay-IsBlind s st)
    perform_thread-IsBlind idle =
        answered-IsBlind s no_value _ (bare_command-IsBlind s st "thread.idle")
    perform_thread-IsBlind flush =
        answered-IsBlind s no_value _ (bare_command-IsBlind s st "thread.tcache.flush")
    perform_thread-IsBlind reset_peak =
        answered-IsBlind s no_value _ (bare_command-IsBlind s st "thread.peak.reset")
    perform_thread-IsBlind get_muzzy_decay =
        answered-IsBlind s number _ (Blindness.get_muzzy_decay-IsBlind s st)
    perform_thread-IsBlind get_dirty_decay =
        answered-IsBlind s number _ (Blindness.get_dirty_decay-IsBlind s st)
    perform_thread-IsBlind is_cache_enabled =
        answered-IsBlind s flag _ (read_flag-IsBlind s st "thread.tcache.enabled")
    perform_thread-IsBlind is_prof_enabled =
        answered-IsBlind s flag _ (read_flag-IsBlind s st "thread.prof.active")
    perform_thread-IsBlind tcache_max =
        answered-IsBlind s number _ (read-IsBlind s st (usize_bytes s.arch) "thread.tcache.max")
    perform_thread-IsBlind arena_id =
        answered-IsBlind s number _ (ArenaBlindness.arena_id-IsBlind s st)
    perform_thread-IsBlind peak =
        answered-IsBlind s number _ (read-IsBlind s st 8 "thread.peak.read")
    perform_thread-IsBlind allocated =
        answered-IsBlind s number _ (read-IsBlind s st 8 "thread.allocated")
    perform_thread-IsBlind deallocated =
        answered-IsBlind s number _ (read-IsBlind s st 8 "thread.deallocated")
    perform_thread-IsBlind current_counters =
        answered-IsBlind s counters _ (Blindness.counters-IsBlind s st)
    perform_thread-IsBlind (cache_enable v) =
        answered-IsBlind s flag _ (switch-IsBlind s st "thread.tcache.enabled" v)
    perform_thread-IsBlind (prof_enable v) =
        answered-IsBlind s flag _ (switch-IsBlind s st "thread.prof.active" v)
    perform_thread-IsBlind (set_muzzy_decay v) =
        answered-IsBlind s number _ (Blindness.set_muzzy_decay-IsBlind s st v)
    perform_thread-IsBlind (set_dirty_decay v) =
        answered-IsBlind s number _ (Blindness.set_dirty_decay-IsBlind s st v)
    perform_thread-IsBlind (set_tcache_max v) =
        answered-IsBlind s number _
          (exchange-IsBlind s st (usize_bytes s.arch) "thread.tcache.max" v)
    perform_thread-IsBlind (tcache_ncached_max v) =
        answered-IsBlind s number _ (Blindness.tcache_ncached_max-IsBlind s st v)
    perform_thread-IsBlind (set_arena id) =
        answered-IsBlind s number _ (ArenaBlindness.set_arena-IsBlind s st id)
    perform_thread-IsBlind (set_tcache_ncached_max t) =
        answered-IsBlind s no_value _ (Blindness.set_tcache_ncached_max-IsBlind s st t)

    pub perform_cache-IsBlind : (c : CacheCall) → IsBlind s (perform_cache c)
    unfolding perform_cache
    perform_cache-IsBlind create = answered-IsBlind s cache _ (Caches.create-IsBlind s st)
    perform_cache-IsBlind (flush_cache c) =
        answered-IsBlind s no_value _ (Caches.flush-IsBlind s st c)
    perform_cache-IsBlind (try_destroy c) =
        answered-IsBlind s cache_ended _ (Caches.attempted-IsBlind s st c)
    perform_cache-IsBlind (drop c) = answered-IsBlind s no_value _ (Caches.dropped-IsBlind s st c)
