-- ===== src/Arena/Handle.antt =====
-- The handle `Arena` of jevmalloc/src/arena.rs: construction, ownership and destruction.
-- A panic ends the run: the drops of an unwinding stack are not modelled.
use jevmalloc.Prelude.{ℕ, Bool, true, false, leb, if◌then◌else◌, length, set}
use jevmalloc.System.{
  Error, Outcome, ok, err, panic, System, Process, Action, lift, usize_bytes, ◌>>=◌,
}
use jevmalloc.Flags.{mallocx_arena}
use jevmalloc.Ctl.Error.{invalid_argument}
use jevmalloc.Ctl.Raw
use jevmalloc.Ctl.Raw.{Key, get, update}
use jevmalloc.Ctl.Key.{key}
use jevmalloc.Arena.Index.{uint_bytes, usize_try_from, validated_index}
use jevmalloc.Thread.Binding.{set_arena, arena_id}

pub record Arena : Type 0 where
  pub index : ℕ
  pub owned : Bool

-- `ArenaDestroyError`
pub record ArenaDestroyError : Type 0 where
  pub error : Error
  pub arena : Arena

-- How `try_destroy` ends.
pub data Attempt : Type 0 where
  destroyed : Attempt
  failed : ArenaDestroyError → Attempt
  panicked : Attempt

-- `Arena::flags`
unfoldable pub flags : Arena → ℕ
flags a = mallocx_arena a.index

module _ {W : Type 0} (s : System W) where
  unfoldable pub from_created_index : ℕ → Outcome Arena
  from_created_index index = elim (usize_try_from s index) [
    | ok i ↦ elim (validated_index s i) [
      | ok _ ↦ ok (record { index = i; owned = true })
      | err e ↦ err e
      | panic ↦ panic
    ]
    | err e ↦ err e
    | panic ↦ panic
  ]

  unfoldable pub create : Action W Arena
  create = do k ← key s "arenas.create"; index ← get s uint_bytes k; lift (from_created_index index)

  unfoldable pub from_index : ℕ → Outcome Arena
  from_index index = elim (validated_index s index) [
    | ok _ ↦ ok (record { index = index; owned = false })
    | err e ↦ err e
    | panic ↦ panic
  ]

  unfoldable pub from_owned_index : ℕ → Outcome Arena
  from_owned_index index = elim (validated_index s index) [
    | ok _ ↦ ok (record { index = index; owned = true })
    | err e ↦ err e
    | panic ↦ panic
  ]

  unfoldable pub current : Action W Arena
  current = do index ← arena_id s; lift (from_index index)

  -- `lookup`, at the address of an allocation.
  unfoldable pub lookup : ℕ → Action W Arena
  lookup allocation = do
    k ← key s "arenas.lookup"
    index ← update s (usize_bytes s.arch) uint_bytes k allocation
    i ← lift (usize_try_from s index)
    lift (from_index i)

  unfoldable pub set_current : Arena → Action W Arena
  set_current a = do previous ← set_arena s a.index; lift (from_index previous)

  -- `key[1] = self.index`, which panics on a key of one component.
  unfoldable pub select : ℕ → Key → Outcome Key
  select index k = if leb (length k) 1 then panic else ok (set k 1 index)

  unfoldable pub notify : Arena → Key → Action W (Unit {0})
  notify a k = do k' ← lift (select a.index k); Raw.notify s k'

  -- The handle after an attempt: only a success disarms it.
  unfoldable pub disarm : Outcome (Unit {0}) → Arena → Arena
  disarm (ok _) a = record a { owned = false }
  disarm (err _) a = a
  disarm panic a = a

  -- The part of `destroy` that only an owner runs, before the handle is disarmed.
  unfoldable pub destroy_command : Arena → Action W (Unit {0})
  destroy_command a = do k ← key s "arena.0.destroy"; notify a k

  -- `destroy(&mut self)`: the outcome, and the handle as it is left.
  unfoldable pub destroy : Arena → Process W → (Outcome (Unit {0}) × Arena) × Process W
  destroy a p =
      if a.owned
      then (let (r, p') = destroy_command a p in ((r, disarm r a), p'))
      else ((invalid_argument s.errno, a), p)

  -- `Drop::drop`
  unfoldable pub drop : Arena → Process W → Process W
  drop a p = if a.owned then (destroy a p).1 else p

  -- `try_destroy(mut self)`; on success the handle goes out of scope and is dropped.
  unfoldable pub finish_destroy : (Outcome (Unit {0}) × Arena) × Process W → Attempt × Process W
  finish_destroy ((ok _, a), p) = (destroyed, drop a p)
  finish_destroy ((err e, a), p) = (failed (record { error = e; arena = a }), p)
  finish_destroy ((panic, a), p) = (panicked, p)

  unfoldable pub try_destroy : Arena → Process W → Attempt × Process W
  try_destroy a p = finish_destroy (destroy a p)

  -- `into_index(mut self)`: the handle is disarmed, read and dropped.
  unfoldable pub into_index : Arena → Process W → ℕ × Process W
  into_index a p = let a' = record a { owned = false } in (a'.index, drop a' p)
