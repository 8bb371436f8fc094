-- ===== src/Thread/Lifecycle.antt =====
-- Ownership of explicit thread caches.
use jevmalloc.Prelude.{◌<◌, ◌≡◌, ◌≢◌, inl, inr, true, refl, arith, Bool-cases, if◌then◌else◌}
use jevmalloc.System.{Outcome, ok, err, panic, System, Process}
use jevmalloc.Ctl.Error.{invalid_argument}
use jevmalloc.Arena.Index.{uint_try_from}
use jevmalloc.Thread.Cache.{
  ThreadCache, Attempt, panicked, tcache_index_limit, destroyed, failed, validated_index, create,
  disarm, destroy_command, destroy, drop, finish_destroy, try_destroy,
}

-- What `create` promises of a handle that it returns.
abbrev pub IsOwner : Outcome ThreadCache → Type 0
IsOwner (ok c) = (c.owned ≡ true) × (c.index < tcache_index_limit)
IsOwner (err _) = Unit
IsOwner panic = Unit

module _ {W : Type 0} (s : System W) where
  -- How an attempt on an owner ends, by how its destroy command ended.
  abbrev pub resolved : ThreadCache → Outcome (Unit {0}) × Process W → Attempt × Process W
  resolved c (ok _, p') = (destroyed, p')
  resolved c (err e, p') = (failed (record { error = e; cache = c }), p')
  resolved c (panic, p') = (panicked, p')

  resolve-finish :
      (c : ThreadCache) (r : Outcome (Unit {0})) (p' : Process W)
      → finish_destroy s ((r, disarm s r c), p') ≡ resolved c (r, p')
  unfolding finish_destroy disarm drop
  resolve-finish c (ok _) p' = refl
  resolve-finish c (err e) p' = refl
  resolve-finish c panic p' = refl

  -- An attempt on an owning cache handle runs the destroy command once: success runs no further
  -- command at the handle's drop, failure gives the status and the unchanged, still owning
  -- handle back. An attempt on a disarmed handle is `EINVAL` and changes nothing. Dropping a handle
  -- runs the command once if it owns its cache, and otherwise changes nothing.
  pub cache_ownership :
      s.errno.einval ≢ 0
      → (c : ThreadCache) (p : Process W)
      → (try_destroy s c p ≡ (
          if c.owned
          then resolved c (destroy_command s c p)
          else (failed (record { error = record { code = s.errno.einval }; cache = c }), p)))
        × (drop s c p ≡ (if c.owned then (destroy_command s c p).1 else p))
  unfolding try_destroy finish_destroy destroy drop invalid_argument
  cache_ownership nz c p = elim (Bool-cases c.owned) [
    | inl owner ↦
        (let (r, p') = destroy_command s c p in
          (simp owner (resolve-finish c r p'), simp owner refl))
    | inr disarmed ↦ (simp disarmed (ground arith), simp disarmed refl)
  ]

  IsOwner-intro :
      (r : Outcome ThreadCache)
      → ((c : ThreadCache) → r ≡ ok c → (c.owned ≡ true) × (c.index < tcache_index_limit))
      → IsOwner r
  IsOwner-intro (ok c) h = h c refl
  IsOwner-intro (err _) h = tt
  IsOwner-intro panic h = tt

  -- A handle that `create` returns owns its cache and has an identifier in range.
  create-IsOwner : (p : Process W) → IsOwner (create s p).0
  unfolding create validated_index uint_try_from invalid_argument
  create-IsOwner p = IsOwner-intro (create s p).0 (λ c h. ground arith)
