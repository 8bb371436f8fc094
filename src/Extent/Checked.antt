-- ===== src/Extent/Checked.antt =====
-- `alloc` of jevmalloc/src/arena/extent_hooks.rs with its three `debug_assert!`s. A panic in a C
-- entry point aborts the process: it is `none`, and nothing is handed to jemalloc.
pub mod Honoured
use jevmalloc.Prelude.{
  ℕ, Bool, true, false, not, ◌&&◌, ◌||◌, Option, none, some, ◌==◌, if◌then◌else◌,
}
use jevmalloc.Extent.Hooks.{ExtentAlloc, ExtentAllocation, Callback, ExtentHooks}
use jevmalloc.Extent.Trampolines.{from_bool, non_null, served}

-- `request.address.is_none_or(|address| address == allocation.address)`
unfoldable pub is_none_or_at : Option ℕ → ℕ → Bool
is_none_or_at none address = true
is_none_or_at (some wanted) address = wanted == address

-- The three asserted conditions.
unfoldable pub is_honoured : ExtentAlloc → ExtentAllocation → Bool
unfolding is_none_or_at
is_honoured request a =
    is_none_or_at request.address a.address
    && (not request.zeroed || a.zeroed)
    && (not request.committed || a.committed)

module _ {E State : Type 0} (hooks : ExtentHooks E State) (debug_assertions : Bool) where
  -- What follows the callback.
  unfoldable pub checked_served : ExtentAlloc → ℕ → ℕ → Option ExtentAllocation → Option (ℕ × ℕ × ℕ)
  checked_served request z c none = some (served hooks z c none)
  checked_served request z c (some a) =
      if debug_assertions && not (is_honoured request a)
      then none
      else some (served hooks z c (some a))

  unfoldable pub checked_serve :
      Option (Callback E State ExtentAlloc (Option ExtentAllocation))
      → ExtentAlloc
      → ℕ
      → ℕ
      → E
      → Option (ℕ × ℕ × ℕ) × E
  checked_serve none request z c e = (some (0, z, c), e)
  checked_serve (some callback) request z c e =
      let (answer, e') = callback hooks.state request e in (checked_served request z c answer, e')

  unfoldable pub checked_alloc : ℕ → ℕ → ℕ → ℕ → ℕ → ℕ → E → Option (ℕ × ℕ × ℕ) × E
  checked_alloc new_address size alignment zeroed_flag committed_flag arena =
      let request : ExtentAlloc = record {
        address = non_null new_address;
        size = size;
        alignment = alignment;
        zeroed = from_bool zeroed_flag;
        committed = from_bool committed_flag;
        arena = arena;
      } in
      checked_serve hooks.callbacks.alloc request zeroed_flag committed_flag
