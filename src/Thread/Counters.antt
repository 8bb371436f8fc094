-- ===== src/Thread/Counters.antt =====
-- jevmalloc/src/thread/counters.rs: pointers to the calling thread's byte counters.
use jevmalloc.Prelude.{ℕ}
use jevmalloc.System.{System, Action, pure, lift, usize_bytes, ◌>>=◌}
use jevmalloc.Ctl.Raw.{get}
use jevmalloc.Ctl.Key.{key}
use jevmalloc.Arena.Controls.{non_null_or_fault}

-- The two pointers, as addresses.
pub record ThreadCounters : Type 0 where
  pub allocated_ptr : ℕ
  pub deallocated_ptr : ℕ

module _ {W : Type 0} (s : System W) where
  unfoldable pub current : Action W ThreadCounters
  current = do
    allocated_key ← key s "thread.allocatedp"
    deallocated_key ← key s "thread.deallocatedp"
    allocated ← get s (usize_bytes s.arch) allocated_key
    deallocated ← get s (usize_bytes s.arch) deallocated_key
    allocated_ptr ← lift (non_null_or_fault s allocated)
    deallocated_ptr ← lift (non_null_or_fault s deallocated)
    pure (record { allocated_ptr = allocated_ptr; deallocated_ptr = deallocated_ptr })

  -- The loads of `ThreadCounters::allocated` and `deallocated`, in the present state.
  unfoldable pub allocated : ThreadCounters → W → ℕ
  allocated c w = s.read_u64 c.allocated_ptr w

  unfoldable pub deallocated : ThreadCounters → W → ℕ
  deallocated c w = s.read_u64 c.deallocated_ptr w
