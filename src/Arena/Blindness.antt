-- ===== src/Arena/Blindness.antt =====
-- The operations of the handle of one arena and its controls are blind to the key caches.
pub mod Texts
pub mod Destruction
use jevmalloc.Prelude.{ℕ, String, none, some, ◌==◌, Bool, true, false, if◌then◌else◌}
use jevmalloc.System.{
  System, Process, Outcome, ok, err, panic, Action, lift, pure, usize_bytes, ◌>>=◌, ◌>>◌,
}
use jevmalloc.Ctl.Error.{invalid_argument}
use jevmalloc.Ctl.Raw
use jevmalloc.Ctl.Raw.{Key, get, xchg, update}
use jevmalloc.Ctl.Key.{key}
use jevmalloc.Ctl.Caching.{IsStable}
use jevmalloc.Ctl.Blindness.{
  IsBlind, lift-IsBlind, on_world-IsBlind, bind-IsBlind, on_key-IsBlind, branch-IsBlind,
  notify-IsBlind, get-IsBlind, xchg-IsBlind, update-IsBlind, set-IsBlind, on_outcome-IsBlind,
}
use jevmalloc.Extent.Hooks.{RawExtentHooks, Static}
use jevmalloc.Arena.Index.{uint_bytes, usize_try_from, validated_index}
use jevmalloc.Arena.Dss.{Dss, as_ptr, from_ptr, read_dss}
use jevmalloc.Thread.Binding.{set_arena, arena_id}
use jevmalloc.Arena.Handle.{
  Arena, Attempt, from_created_index, create, from_index, current, lookup, set_current, select,
  notify, destroy_command, destroy, drop, finish_destroy, try_destroy, disarm,
}
use jevmalloc.Arena.Controls.{
  decay, purge, trim, reset, selected_key, name_from, name, set_name, dss, set_dss, get_word,
  xchg_word, non_null_or_fault, extent_hooks, set_raw_extent_hooks, create_with_raw_extent_hooks,
  arena_name_len,
}

module _ {W : Type 0} (s : System W) (st : IsStable s) where
  pub create-IsBlind : IsBlind s (create s)
  unfolding create
  create-IsBlind = on_key-IsBlind s st "arenas.create" _ λ k.
      bind-IsBlind s (get s uint_bytes k) _ (get-IsBlind s uint_bytes k)
        λ index. lift-IsBlind s (from_created_index s index)

  pub arena_id-IsBlind : IsBlind s (arena_id s)
  unfolding arena_id
  arena_id-IsBlind = on_key-IsBlind s st "thread.arena" _ λ k.
      bind-IsBlind s (get s uint_bytes k) _ (get-IsBlind s uint_bytes k)
        λ id. lift-IsBlind s (usize_try_from s id)

  pub current-IsBlind : IsBlind s (current s)
  unfolding current
  current-IsBlind =
      bind-IsBlind s (arena_id s) _ arena_id-IsBlind λ index. lift-IsBlind s (from_index s index)

  pub lookup-IsBlind : (allocation : ℕ) → IsBlind s (lookup s allocation)
  unfolding lookup
  lookup-IsBlind allocation = on_key-IsBlind s st "arenas.lookup" _ λ k.
      bind-IsBlind s (update s (usize_bytes s.arch) uint_bytes k allocation) _
        (update-IsBlind s (usize_bytes s.arch) uint_bytes k allocation)
        λ index.
          on_outcome-IsBlind s (usize_try_from s index) _ λ i. lift-IsBlind s (from_index s i)

  pub set_arena-IsBlind : (id : ℕ) → IsBlind s (set_arena s id)
  unfolding set_arena
  set_arena-IsBlind id = on_outcome-IsBlind s (validated_index s id) _ λ id'.
      on_key-IsBlind s st "thread.arena" _ λ k.
        bind-IsBlind s (xchg s uint_bytes k id') _ (xchg-IsBlind s uint_bytes k id')
          λ previous. lift-IsBlind s (usize_try_from s previous)

  pub set_current-IsBlind : (a : Arena) → IsBlind s (set_current s a)
  unfolding set_current
  set_current-IsBlind a =
      bind-IsBlind s (set_arena s a.index) _ (set_arena-IsBlind a.index)
        λ previous. lift-IsBlind s (from_index s previous)

  -- A command at this arena's index.
  command-IsBlind : (name : String) (a : Arena) → IsBlind s (key s name >>= λ k. notify s a k)
  unfolding notify
  command-IsBlind name a =
      on_key-IsBlind s st name _
        λ k. on_outcome-IsBlind s (select s a.index k) _ λ k'. notify-IsBlind s k'

  pub decay-IsBlind : (a : Arena) → IsBlind s (decay s a)
  unfolding decay
  decay-IsBlind a = command-IsBlind "arena.0.decay" a

  pub purge-IsBlind : (a : Arena) → IsBlind s (purge s a)
  unfolding purge
  purge-IsBlind a = command-IsBlind "arena.0.purge" a

  pub trim-IsBlind : (a : Arena) → IsBlind s (trim s a)
  unfolding trim
  trim-IsBlind a = bind-IsBlind s (decay s a) _ (decay-IsBlind a) λ _. purge-IsBlind a

  pub reset-IsBlind : (a : Arena) → IsBlind s (reset s a)
  unfolding reset
  reset-IsBlind a =
      branch-IsBlind s a.owned _ _ (command-IsBlind "arena.0.reset" a)
        (lift-IsBlind s (invalid_argument s.errno))

  pub selected_key-IsBlind : (name : String) (a : Arena) → IsBlind s (selected_key s name a)
  unfolding selected_key
  selected_key-IsBlind name a = on_key-IsBlind s st name _ λ k. lift-IsBlind s (select s a.index k)

  pub get_word-IsBlind : (name : String) (a : Arena) → IsBlind s (get_word s name a)
  unfolding get_word
  get_word-IsBlind name a =
      bind-IsBlind s (selected_key s name a) _ (selected_key-IsBlind name a)
        λ k. get-IsBlind s (usize_bytes s.arch) k

  pub xchg_word-IsBlind : (name : String) (a : Arena) (v : ℕ) → IsBlind s (xchg_word s name a v)
  unfolding xchg_word
  xchg_word-IsBlind name a v =
      bind-IsBlind s (selected_key s name a) _ (selected_key-IsBlind name a)
        λ k. xchg-IsBlind s (usize_bytes s.arch) k v
