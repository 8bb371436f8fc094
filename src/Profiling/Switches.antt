-- ===== src/Profiling/Switches.antt =====
-- The boolean switches of the crate, against one exchange of their key.
use jevmalloc.Prelude.{◌≡◌, Bool, String, not, ◌==◌, if◌then◌else◌, codes}
use jevmalloc.System.{System, Process, Action, ok, ◌>>=◌}
use jevmalloc.Ctl.Raw.{mibs}
use jevmalloc.Ctl.Key.{key}
use jevmalloc.Ctl.Value.{bool_bytes, encode_bool, decode_bool, xchg_bool}
use jevmalloc.Ctl.Caching.{IsStable, IsCoherent}
use jevmalloc.Ctl.Queries.{seen, converted, exchange_at, on_key, xchg_bool-seen, lookup-seen}
use jevmalloc.Profiling.{prof_gdump, prof_enable, background_thread_enable}
use jevmalloc.Thread.This
use jevmalloc.Thread.This.{cache_enable}

module _ {W : Type 0} (s : System W) where
  -- An action is seen as one exchange of the key of a name. A C boolean has four bytes for MSVC and
  -- one otherwise: true is sent as 1 and false as 0, and what comes back is true unless it is 0.
  abbrev pub IsSwitch : String → Bool → Process W → Action W Bool → Type 0
  IsSwitch name v p action =
      seen (action p)
      ≡ on_key s
          (λ k w.
            converted (λ old. ok (not (old == 0)))
              (exchange_at s (if s.msvc then 4 else 1) (if v then 1 else 0) k w))
          p.world (mibs s (codes name) p).0

  module _ (st : IsStable s) where
    xchg_bool-IsSwitch :
        (name : String) (v : Bool) (p : Process W)
        → IsCoherent s p
        → IsSwitch name v p (key s name >>= λ k. xchg_bool s k v)
    unfolding bool_bytes encode_bool decode_bool
    xchg_bool-IsSwitch name v p h =
        lookup-seen s st name (λ k. xchg_bool s k v) _ p h (λ k q. xchg_bool-seen s v k q)

    -- From a coherent state, where names are translated as documented, each switch of the crate is
    -- seen as one exchange at its own name, of 4 bytes for MSVC and of 1 otherwise, with 1 or 0 as
    -- the new setting; the previous one is returned as true unless it was 0.
    pub switches-IsSwitch :
        (v : Bool) (p : Process W)
        → IsCoherent s p
        → IsSwitch "prof.gdump" v p (prof_gdump s v)
          × IsSwitch "prof.active" v p (prof_enable s v)
          × IsSwitch "background_thread" v p (background_thread_enable s v)
          × IsSwitch "thread.tcache.enabled" v p (cache_enable s v)
          × IsSwitch "thread.prof.active" v p (This.prof_enable s v)
    unfolding prof_gdump prof_enable background_thread_enable cache_enable This.prof_enable
    switches-IsSwitch v p h = (
      xchg_bool-IsSwitch "prof.gdump" v p h,
      xchg_bool-IsSwitch "prof.active" v p h,
      xchg_bool-IsSwitch "background_thread" v p h,
      xchg_bool-IsSwitch "thread.tcache.enabled" v p h,
      xchg_bool-IsSwitch "thread.prof.active" v p h,
    )
