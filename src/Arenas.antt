-- ===== src/Arenas.antt =====
-- jevmalloc/src/arenas.rs: allocator-wide defaults, queries and reclamation.
pub mod Targets
pub mod Blindness
use jevmalloc.Prelude.{
  ℕ, Bool, false, true, leb, ◌==◌, if◌then◌else◌, length, set, same_bytes, codes,
}
use jevmalloc.System.{
  System, Outcome, ok, err, panic, Process, Action, lift, usize_bytes, ◌>>=◌, ◌>>◌,
}
use jevmalloc.Ctl.Error.{bad_address, invalid_argument}
use jevmalloc.Ctl.Raw
use jevmalloc.Ctl.Raw.{Key, get, xchg}
use jevmalloc.Ctl.Key.{key}
use jevmalloc.Arena.Index.{uint_bytes, usize_try_from}
use jevmalloc.Arena.Dss.{Dss, as_ptr, read_dss}

abbrev pub all_arenas : ℕ
all_arenas = 4096

-- The three modes, which the source returns as static texts.
pub data PercpuMode : Type 0 where
  disabled percpu phycpu : PercpuMode

module _ {W : Type 0} (s : System W) where
  -- `key[1] = ALL_ARENAS`, which panics on a key of one component.
  unfoldable pub select : Key → Outcome Key
  select k = if leb (length k) 1 then panic else ok (set k 1 all_arenas)

  unfoldable pub notify : Key → Action W (Unit {0})
  notify k = do k' ← lift (select k); Raw.notify s k'

  unfoldable pub purge : Action W (Unit {0})
  purge = do k ← key s "arena.0.purge"; notify k

  unfoldable pub decay : Action W (Unit {0})
  decay = do k ← key s "arena.0.decay"; notify k

  unfoldable pub trim : Action W (Unit {0})
  trim = do decay; purge

  unfoldable pub muzzy_decay : Action W ℕ
  muzzy_decay = do k ← key s "arenas.muzzy_decay_ms"; get s (usize_bytes s.arch) k

  unfoldable pub set_muzzy_decay : ℕ → Action W ℕ
  set_muzzy_decay decay_ms = do
    k ← key s "arenas.muzzy_decay_ms"
    xchg s (usize_bytes s.arch) k decay_ms

  unfoldable pub dirty_decay : Action W ℕ
  dirty_decay = do k ← key s "arenas.dirty_decay_ms"; get s (usize_bytes s.arch) k

  unfoldable pub set_dirty_decay : ℕ → Action W ℕ
  set_dirty_decay decay_ms = do
    k ← key s "arenas.dirty_decay_ms"
    xchg s (usize_bytes s.arch) k decay_ms

  unfoldable pub dss : Action W Dss
  dss = do
    k ← key s "arena.0.dss"
    k' ← lift (select k)
    ptr ← get s (usize_bytes s.arch) k'
    read_dss s ptr

  unfoldable pub set_dss : Dss → Action W Dss
  set_dss value = do
    k ← key s "arena.0.dss"
    k' ← lift (select k)
    resulting ← xchg s (usize_bytes s.arch) k' (as_ptr s value)
    read_dss s resulting

  unfoldable pub limit : Action W ℕ
  limit = do k ← key s "arenas.narenas"; arenas ← get s uint_bytes k; lift (usize_try_from s arenas)

  unfoldable pub quantum : Action W ℕ
  quantum = do k ← key s "arenas.quantum"; get s (usize_bytes s.arch) k

  -- The match of `percpu_mode` on the string at a pointer.
  unfoldable pub mode_from : ℕ → W → Outcome PercpuMode
  mode_from ptr w =
      if ptr == 0
      then bad_address s.errno
      else (let value = s.from_ptr ptr w in
          if same_bytes value (codes "disabled")
          then ok disabled
          else if same_bytes value (codes "percpu")
          then ok percpu
          else if same_bytes value (codes "phycpu")
          then ok phycpu
          else invalid_argument s.errno)

  unfoldable pub percpu_mode : Action W PercpuMode
  percpu_mode = do
    k ← key s "opt.percpu_arena"
    ptr ← get s (usize_bytes s.arch) k
    λ p. (mode_from ptr p.world, p)

  -- `percpu_mode().is_ok_and(...)`, with the state that the query leaves.
  abbrev pub mode_is :
      (PercpuMode → Bool) → Outcome PercpuMode × Process W → Outcome Bool × Process W
  mode_is test (ok mode, p) = (ok (test mode), p)
  mode_is test (err _, p) = (ok false, p)
  mode_is test (panic, p) = (panic, p)

  unfoldable pub is_affine : Action W Bool
  is_affine p = mode_is (elim [ disabled ↦ false | percpu ↦ true | phycpu ↦ true ]) (percpu_mode p)

  unfoldable pub is_percpu : Action W Bool
  is_percpu p = mode_is (elim [ disabled ↦ false | percpu ↦ true | phycpu ↦ false ]) (percpu_mode p)

  unfoldable pub is_phycpu : Action W Bool
  is_phycpu p = mode_is (elim [ disabled ↦ false | percpu ↦ false | phycpu ↦ true ]) (percpu_mode p)
