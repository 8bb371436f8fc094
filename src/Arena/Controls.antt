-- ===== src/Arena/Controls.antt =====
-- The controls of one arena, of jevmalloc/src/arena.rs.
-- `isize` values are bit patterns of the pointer's width; -1 is the pattern of all ones.
use jevmalloc.Prelude.{ℕ, String, List, replicate, none, some, ◌==◌, if◌then◌else◌}
use jevmalloc.System.{System, Outcome, ok, err, panic, Action, lift, usize_bytes, ◌>>=◌, ◌>>◌}
use jevmalloc.Ctl.Error.{invalid_argument, bad_address}
use jevmalloc.Ctl.Raw
use jevmalloc.Ctl.Raw.{Key, get, update, xchg}
use jevmalloc.Ctl.Key.{key}
use jevmalloc.Extent.Hooks.{RawExtentHooks, Static, ExtentHooks, as_raw}
use jevmalloc.Arena.Index.{uint_bytes}
use jevmalloc.Arena.Dss.{Dss, as_ptr, read_dss}
use jevmalloc.Arena.Handle.{Arena, from_created_index, select, notify}

abbrev pub arena_name_len : ℕ
arena_name_len = 32

module _ {W : Type 0} (s : System W) where
  unfoldable pub decay : Arena → Action W (Unit {0})
  decay a = do k ← key s "arena.0.decay"; notify s a k

  unfoldable pub purge : Arena → Action W (Unit {0})
  purge a = do k ← key s "arena.0.purge"; notify s a k

  unfoldable pub trim : Arena → Action W (Unit {0})
  trim a = do decay a; purge a

  unfoldable pub reset : Arena → Action W (Unit {0})
  reset a =
      if a.owned
      then (do k ← key s "arena.0.reset"; notify s a k)
      else lift (invalid_argument s.errno)

  -- A fixed key with this arena's index in it.
  unfoldable pub selected_key : String → Arena → Action W Key
  selected_key name a = do k ← key s name; lift (select s a.index k)

  -- `name`, as its `as_bytes` reads the buffer that jemalloc writes through the pointer.
  unfoldable pub name_from : Key → Action W (List ℕ)
  name_from k p =
      let ptr = s.local_buffer (replicate arena_name_len 0) in
      let ((r, _), p') = Raw.get_in_place s (usize_bytes s.arch) k ptr p in
      elim r [
        | ok _ ↦ (ok (s.from_ptr ptr p'.world), p')
        | err e ↦ (err e, p')
        | panic ↦ (panic, p')
      ]

  unfoldable pub name : Arena → Action W (List ℕ)
  name a = do k ← selected_key "arena.0.name" a; name_from k

  -- `set_name`, at the address of the terminated string.
  unfoldable pub set_name : Arena → ℕ → Action W (Unit {0})
  set_name a name = do k ← selected_key "arena.0.name" a; Raw.set s (usize_bytes s.arch) k name

  unfoldable pub dss : Arena → Action W Dss
  dss a = do k ← selected_key "arena.0.dss" a; ptr ← get s (usize_bytes s.arch) k; read_dss s ptr

  unfoldable pub set_dss : Arena → Dss → Action W Dss
  set_dss a value = do
    k ← selected_key "arena.0.dss" a
    resulting ← xchg s (usize_bytes s.arch) k (as_ptr s value)
    read_dss s resulting

  -- The getters and setters of one word.
  unfoldable pub get_word : String → Arena → Action W ℕ
  get_word name a = do k ← selected_key name a; get s (usize_bytes s.arch) k

  unfoldable pub xchg_word : String → Arena → ℕ → Action W ℕ
  xchg_word name a value = do k ← selected_key name a; xchg s (usize_bytes s.arch) k value

  unfoldable pub dirty_decay : Arena → Action W ℕ
  dirty_decay = get_word "arena.0.dirty_decay_ms"

  unfoldable pub set_dirty_decay : Arena → ℕ → Action W ℕ
  set_dirty_decay = xchg_word "arena.0.dirty_decay_ms"

  unfoldable pub muzzy_decay : Arena → Action W ℕ
  muzzy_decay = get_word "arena.0.muzzy_decay_ms"

  unfoldable pub set_muzzy_decay : Arena → ℕ → Action W ℕ
  set_muzzy_decay = xchg_word "arena.0.muzzy_decay_ms"

  unfoldable pub retain_grow_limit : Arena → Action W ℕ
  retain_grow_limit = get_word "arena.0.retain_grow_limit"

  unfoldable pub set_retain_grow_limit : Arena → ℕ → Action W ℕ
  set_retain_grow_limit = xchg_word "arena.0.retain_grow_limit"

  -- `NonNull::new(p).ok_or_else(Error::bad_address)`
  unfoldable pub non_null_or_fault : ℕ → Outcome ℕ
  non_null_or_fault address = if address == 0 then bad_address s.errno else ok address

  unfoldable pub extent_hooks : Arena → Action W ℕ
  extent_hooks a = do hooks ← get_word "arena.0.extent_hooks" a; lift (non_null_or_fault hooks)

  -- A table with no allocation hook is refused before any control is touched.
  unfoldable pub set_raw_extent_hooks : Arena → Static RawExtentHooks → Action W ℕ
  set_raw_extent_hooks a hooks = elim hooks.target.alloc [
    | none ↦ lift (invalid_argument s.errno)
    | some _ ↦ do
      previous ← xchg_word "arena.0.extent_hooks" a hooks.address
      lift (non_null_or_fault previous)
  ]

  unfoldable pub set_extent_hooks :
      {E State : Type 0} → Arena → Static (ExtentHooks E State) → Action W ℕ
  set_extent_hooks a hooks = set_raw_extent_hooks a (as_raw hooks)

  unfoldable pub create_with_raw_extent_hooks : Static RawExtentHooks → Action W Arena
  create_with_raw_extent_hooks hooks = elim hooks.target.alloc [
    | none ↦ lift (invalid_argument s.errno)
    | some _ ↦ do
      k ← key s "arenas.create"
      index ← update s (usize_bytes s.arch) uint_bytes k hooks.address
      lift (from_created_index s index)
  ]

  unfoldable pub create_with_extent_hooks :
      {E State : Type 0} → Static (ExtentHooks E State) → Action W Arena
  create_with_extent_hooks hooks = create_with_raw_extent_hooks (as_raw hooks)
