-- ===== src/Thread/Cache.antt =====
-- jevmalloc/src/thread/cache.rs: the handle of an explicit thread cache.
-- A panic ends the run: the drops of an unwinding stack are not modelled.
use jevmalloc.Prelude.{ℕ, Bool, true, false, leb, if◌then◌else◌}
use jevmalloc.System.{Error, Outcome, ok, err, panic, System, Process, Action, pure, lift, ◌>>=◌}
use jevmalloc.Flags.{mallocx_tcache}
use jevmalloc.Ctl.Error.{invalid_argument}
use jevmalloc.Ctl.Raw
use jevmalloc.Ctl.Raw.{get}
use jevmalloc.Ctl.Key.{key}
use jevmalloc.Arena.Index.{uint_bytes, usize_try_from, uint_try_from}

abbrev pub tcache_index_limit : ℕ
tcache_index_limit = 4094

pub record ThreadCache : Type 0 where
  pub index : ℕ
  pub owned : Bool

-- `ThreadCacheDestroyError`
pub record ThreadCacheDestroyError : Type 0 where
  pub error : Error
  pub cache : ThreadCache

pub data Attempt : Type 0 where
  destroyed : Attempt
  failed : ThreadCacheDestroyError → Attempt
  panicked : Attempt

module _ {W : Type 0} (s : System W) where
  unfoldable pub flags : ThreadCache → ℕ
  flags c = mallocx_tcache s.arch c.index

  unfoldable pub validated_index : ℕ → Outcome ℕ
  validated_index index =
      if leb tcache_index_limit index then invalid_argument s.errno else uint_try_from s index

  -- The two unused keys are translated before the cache exists.
  unfoldable pub create : Action W ThreadCache
  create = do
    create_key ← key s "tcache.create"
    _ ← key s "tcache.flush"
    _ ← key s "tcache.destroy"
    value ← get s uint_bytes create_key
    index ← lift (usize_try_from s value)
    _ ← lift (validated_index index)
    pure (record { index = index; owned = true })

  unfoldable pub flush : ThreadCache → Action W (Unit {0})
  flush c = do
    k ← key s "tcache.flush"
    index ← lift (validated_index c.index)
    Raw.set s uint_bytes k index

  unfoldable pub disarm : Outcome (Unit {0}) → ThreadCache → ThreadCache
  disarm (ok _) c = record c { owned = false }
  disarm (err _) c = c
  disarm panic c = c

  -- The part of `destroy` that only an owner runs, before the handle is disarmed.
  unfoldable pub destroy_command : ThreadCache → Action W (Unit {0})
  destroy_command c = do
    k ← key s "tcache.destroy"
    index ← lift (validated_index c.index)
    Raw.set s uint_bytes k index

  -- `destroy(&mut self)`: the outcome, and the handle as it is left.
  unfoldable pub destroy : ThreadCache → Process W → (Outcome (Unit {0}) × ThreadCache) × Process W
  destroy c p =
      if c.owned
      then (let (r, p') = destroy_command c p in ((r, disarm r c), p'))
      else ((invalid_argument s.errno, c), p)

  -- `Drop::drop`
  unfoldable pub drop : ThreadCache → Process W → Process W
  drop c p = if c.owned then (destroy c p).1 else p

  -- `try_destroy(mut self)`; on success the handle goes out of scope and is dropped.
  unfoldable pub finish_destroy :
      (Outcome (Unit {0}) × ThreadCache) × Process W → Attempt × Process W
  finish_destroy ((ok _, c), p) = (destroyed, drop c p)
  finish_destroy ((err e, c), p) = (failed (record { error = e; cache = c }), p)
  finish_destroy ((panic, c), p) = (panicked, p)

  unfoldable pub try_destroy : ThreadCache → Process W → Attempt × Process W
  try_destroy c p = finish_destroy (destroy c p)
