-- ===== src/Thread/Blindness.antt =====
-- The controls of the calling thread are blind to the key caches.
pub mod Caches
use jevmalloc.Prelude.{ℕ, Bool, String, List, ◌+◌, ◌-◌, ◌++◌, ltb, length, replicate}
use jevmalloc.System.{System, Action, ok, lift, pure, usize_bytes, ◌>>=◌}
use jevmalloc.Ctl.Error.{invalid_argument}
use jevmalloc.Ctl.Raw
use jevmalloc.Ctl.Raw.{Key, get, xchg, update}
use jevmalloc.Ctl.Key.{key}
use jevmalloc.Ctl.Value.{get_bool, xchg_bool}
use jevmalloc.Ctl.Caching.{IsStable}
use jevmalloc.Ctl.Blindness.{
  IsBlind, lift-IsBlind, bind-IsBlind, on_key-IsBlind, branch-IsBlind, notify-IsBlind, get-IsBlind,
  xchg-IsBlind, update-IsBlind, set-IsBlind, on_outcome-IsBlind, get_bool-IsBlind,
}
use jevmalloc.Arena.Handle
use jevmalloc.Arena.Controls.{non_null_or_fault}
use jevmalloc.Arena.Controls
use jevmalloc.Arena.Blindness
use jevmalloc.Arena.Blindness.{current-IsBlind, get_word-IsBlind, xchg_word-IsBlind}
use jevmalloc.Thread.This.{
  trim, purge, decay, idle, flush, set_muzzy_decay, get_muzzy_decay, set_dirty_decay,
  get_dirty_decay, cache_enable, is_cache_enabled, tcache_max, set_tcache_max, tcache_ncached_max,
  set_tcache_ncached_max, tcache_ncached_max_settings_len, prof_enable, is_prof_enabled, reset_peak,
  get_u64,
}
use jevmalloc.Thread.Counters.{current, ThreadCounters}

module _ {W : Type 0} (s : System W) (st : IsStable s) where
  pub trim-IsBlind : IsBlind s (trim s)
  unfolding trim
  trim-IsBlind =
      bind-IsBlind s (Handle.current s) _ (current-IsBlind s st) λ a. Blindness.trim-IsBlind s st a

  pub purge-IsBlind : IsBlind s (purge s)
  unfolding purge
  purge-IsBlind =
      bind-IsBlind s (Handle.current s) _ (current-IsBlind s st) λ a. Blindness.purge-IsBlind s st a

  pub decay-IsBlind : IsBlind s (decay s)
  unfolding decay
  decay-IsBlind =
      bind-IsBlind s (Handle.current s) _ (current-IsBlind s st) λ a. Blindness.decay-IsBlind s st a

  -- A word of the current arena.
  pub get_muzzy_decay-IsBlind : IsBlind s (get_muzzy_decay s)
  unfolding get_muzzy_decay Controls.muzzy_decay
  get_muzzy_decay-IsBlind =
      bind-IsBlind s (Handle.current s) _ (current-IsBlind s st)
        λ a. get_word-IsBlind s st "arena.0.muzzy_decay_ms" a

  pub get_dirty_decay-IsBlind : IsBlind s (get_dirty_decay s)
  unfolding get_dirty_decay Controls.dirty_decay
  get_dirty_decay-IsBlind =
      bind-IsBlind s (Handle.current s) _ (current-IsBlind s st)
        λ a. get_word-IsBlind s st "arena.0.dirty_decay_ms" a

  pub set_muzzy_decay-IsBlind : (v : ℕ) → IsBlind s (set_muzzy_decay s v)
  unfolding set_muzzy_decay Controls.set_muzzy_decay
  set_muzzy_decay-IsBlind v =
      bind-IsBlind s (Handle.current s) _ (current-IsBlind s st)
        λ a. xchg_word-IsBlind s st "arena.0.muzzy_decay_ms" a v

  pub set_dirty_decay-IsBlind : (v : ℕ) → IsBlind s (set_dirty_decay s v)
  unfolding set_dirty_decay Controls.set_dirty_decay
  set_dirty_decay-IsBlind v =
      bind-IsBlind s (Handle.current s) _ (current-IsBlind s st)
        λ a. xchg_word-IsBlind s st "arena.0.dirty_decay_ms" a v

  pub tcache_ncached_max-IsBlind : (size_class : ℕ) → IsBlind s (tcache_ncached_max s size_class)
  unfolding tcache_ncached_max
  tcache_ncached_max-IsBlind size_class =
      on_key-IsBlind s st "thread.tcache.ncached_max.read_sizeclass" _
        λ k. update-IsBlind s (usize_bytes s.arch) (usize_bytes s.arch) k size_class

  pub set_tcache_ncached_max-IsBlind :
      (settings : List ℕ) → IsBlind s (set_tcache_ncached_max s settings)
  unfolding set_tcache_ncached_max
  set_tcache_ncached_max-IsBlind settings =
      branch-IsBlind s (ltb tcache_ncached_max_settings_len (length settings + 1)) _ _
        (lift-IsBlind s (invalid_argument s.errno))
        (on_key-IsBlind s st "thread.tcache.ncached_max.write" _
          λ k. set-IsBlind s (usize_bytes s.arch) k _)

  pub counters-IsBlind : IsBlind s (current s)
  unfolding current
  counters-IsBlind = on_key-IsBlind s st "thread.allocatedp" _ λ k.
      on_key-IsBlind s st "thread.deallocatedp" _ λ k'.
        bind-IsBlind s (get s (usize_bytes s.arch) k) _ (get-IsBlind s (usize_bytes s.arch) k) λ v.
          bind-IsBlind s (get s (usize_bytes s.arch) k') _ (get-IsBlind s (usize_bytes s.arch) k')
            λ v'. on_outcome-IsBlind s (non_null_or_fault s v) _ λ ptr.
              on_outcome-IsBlind s (non_null_or_fault s v') _
                λ ptr'. lift-IsBlind s (ok (record { allocated_ptr = ptr; deallocated_ptr = ptr' }))
