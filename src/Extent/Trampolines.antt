-- ===== src/Extent/Trampolines.antt =====
-- The C trampolines of jevmalloc/src/arena/extent_hooks.rs. Each takes the table that `from_raw`
-- finds behind the raw header, so the header's pointer is replaced by the table.
use jevmalloc.Prelude.{ℕ, Bool, true, false, not, Option, none, some, ◌==◌, if◌then◌else◌}
use jevmalloc.Extent.Hooks.{
  ExtentAlloc, ExtentAllocation, Extent, ExtentRange, ExtentSplit, ExtentMerge, ExtentHookResult,
  success, failure, Callback, ExtentHooks,
}

-- `to_bool` and `from_bool`: a C boolean is a number, 0 or 1 where the code writes it.
unfoldable pub to_bool : Bool → ℕ
to_bool value = if value then 1 else 0

unfoldable pub from_bool : ℕ → Bool
from_bool value = not (value == 0)

unfoldable pub is_failure : ExtentHookResult → Bool
is_failure failure = true
is_failure success = false

-- `failure()`
unfoldable pub refused : ℕ
unfolding to_bool
refused = to_bool true

-- `NonNull::new`
unfoldable pub non_null : ℕ → Option ℕ
non_null address = if address == 0 then none else some address

pub data RangeKind : Type 0 where
  commit_range decommit_range purge_lazy_range purge_forced_range : RangeKind

module _ {E State : Type 0} (hooks : ExtentHooks E State) where
  -- A callback whose outcome is a C boolean: absent, it declines.
  unfoldable pub invoke :
      {Request : Type 0} → Option (Callback E State Request ExtentHookResult) → Request → E → ℕ × E
  unfolding to_bool is_failure refused
  invoke none request e = (refused, e)
  invoke (some callback) request e =
      let (result, e') = callback hooks.state request e in (to_bool (is_failure result), e')

  -- What `alloc` returns, with the flags behind `zeroed` and `committed` as it leaves them.
  unfoldable pub served : ℕ → ℕ → Option ExtentAllocation → ℕ × ℕ × ℕ
  unfolding to_bool
  served before_zeroed before_committed none = (0, before_zeroed, before_committed)
  served _ _ (some a) = (a.address, to_bool a.zeroed, to_bool a.committed)

  -- The two early returns of `alloc`, and its writes.
  unfoldable pub serve :
      Option (Callback E State ExtentAlloc (Option ExtentAllocation))
      → ExtentAlloc
      → ℕ
      → ℕ
      → E
      → (ℕ × ℕ × ℕ) × E
  unfolding served
  serve none request zeroed_flag committed_flag e = ((0, zeroed_flag, committed_flag), e)
  serve (some callback) request zeroed_flag committed_flag e =
      let (allocation, e') = callback hooks.state request e in
      (served zeroed_flag committed_flag allocation, e')

  -- `alloc` of a release build, where the `debug_assert!`s are absent.
  unfoldable pub alloc : ℕ → ℕ → ℕ → ℕ → ℕ → ℕ → E → (ℕ × ℕ × ℕ) × E
  unfolding serve non_null from_bool
  alloc new_address size alignment zeroed_flag committed_flag arena =
      let request : ExtentAlloc = record {
        address = non_null new_address;
        size = size;
        alignment = alignment;
        zeroed = from_bool zeroed_flag;
        committed = from_bool committed_flag;
        arena = arena;
      } in
      serve hooks.callbacks.alloc request zeroed_flag committed_flag

  unfoldable pub dalloc : ℕ → ℕ → ℕ → ℕ → E → ℕ × E
  unfolding invoke from_bool
  dalloc address size committed arena =
      let extent : Extent = record {
        address = address;
        size = size;
        committed = from_bool committed;
        arena = arena;
      } in
      invoke hooks.callbacks.dalloc extent

  unfoldable pub destroy : ℕ → ℕ → ℕ → ℕ → E → E
  unfolding from_bool
  destroy address size committed arena e = elim hooks.callbacks.destroy [
    | none ↦ e
    | some callback ↦
        (let extent : Extent = record {
          address = address;
          size = size;
          committed = from_bool committed;
          arena = arena;
        } in
          (callback hooks.state extent e).1)
  ]

  unfoldable pub selected : RangeKind → Option (Callback E State ExtentRange ExtentHookResult)
  selected commit_range = hooks.callbacks.commit
  selected decommit_range = hooks.callbacks.decommit
  selected purge_lazy_range = hooks.callbacks.purge_lazy
  selected purge_forced_range = hooks.callbacks.purge_forced

  unfoldable pub range : ℕ → ℕ → ℕ → ℕ → ℕ → RangeKind → E → ℕ × E
  unfolding invoke selected
  range address size offset length arena kind =
      let request : ExtentRange = record {
        address = address;
        size = size;
        offset = offset;
        length = length;
        arena = arena;
      } in
      invoke (selected kind) request

  unfoldable pub commit : ℕ → ℕ → ℕ → ℕ → ℕ → E → ℕ × E
  unfolding range
  commit address size offset length arena = range address size offset length arena commit_range

  unfoldable pub decommit : ℕ → ℕ → ℕ → ℕ → ℕ → E → ℕ × E
  unfolding range
  decommit address size offset length arena = range address size offset length arena decommit_range

  unfoldable pub purge_lazy : ℕ → ℕ → ℕ → ℕ → ℕ → E → ℕ × E
  unfolding range
  purge_lazy address size offset length arena =
      range address size offset length arena purge_lazy_range

  unfoldable pub purge_forced : ℕ → ℕ → ℕ → ℕ → ℕ → E → ℕ × E
  unfolding range
  purge_forced address size offset length arena =
      range address size offset length arena purge_forced_range

  unfoldable pub split : ℕ → ℕ → ℕ → ℕ → ℕ → ℕ → E → ℕ × E
  unfolding invoke from_bool
  split address size first_size second_size committed arena =
      let request : ExtentSplit = record {
        address = address;
        size = size;
        first_size = first_size;
        second_size = second_size;
        committed = from_bool committed;
        arena = arena;
      } in
      invoke hooks.callbacks.split request

  unfoldable pub merge : ℕ → ℕ → ℕ → ℕ → ℕ → ℕ → E → ℕ × E
  unfolding invoke from_bool
  merge first_address first_size second_address second_size committed arena =
      let request : ExtentMerge = record {
        first_address = first_address;
        first_size = first_size;
        second_address = second_address;
        second_size = second_size;
        committed = from_bool committed;
        arena = arena;
      } in
      invoke hooks.callbacks.merge request
