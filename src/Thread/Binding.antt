-- ===== src/Thread/Binding.antt =====
-- The thread's association with an arena, of jevmalloc/src/thread/this.rs.
use jevmalloc.Prelude.{ℕ}
use jevmalloc.System.{System, Action, lift, ◌>>=◌}
use jevmalloc.Ctl.Raw.{get, xchg}
use jevmalloc.Ctl.Key.{key}
use jevmalloc.Arena.Index.{uint_bytes, usize_try_from, validated_index}

module _ {W : Type 0} (s : System W) where
  unfoldable pub set_arena : ℕ → Action W ℕ
  set_arena id = do
    id' ← lift (validated_index s id)
    k ← key s "thread.arena"
    previous ← xchg s uint_bytes k id'
    lift (usize_try_from s previous)

  unfoldable pub arena_id : Action W ℕ
  arena_id = do k ← key s "thread.arena"; id ← get s uint_bytes k; lift (usize_try_from s id)
