-- ===== src/Extent/Hooks.antt =====
-- jevmalloc/src/arena/extent_hooks.rs: the tables, and the references to them.
use jevmalloc.Prelude.{ℕ, Bool, Option, none, some}

-- `RawExtentHooks`: nine optional C function pointers.
pub record RawExtentHooks : Type 0 where
  pub alloc : Option ℕ
  pub dalloc : Option ℕ
  pub destroy : Option ℕ
  pub commit : Option ℕ
  pub decommit : Option ℕ
  pub purge_lazy : Option ℕ
  pub purge_forced : Option ℕ
  pub split : Option ℕ
  pub merge : Option ℕ

-- `EMPTY_RAW_EXTENT_HOOKS`
unfoldable pub empty_raw_extent_hooks : RawExtentHooks
empty_raw_extent_hooks = record {
  alloc = none;
  dalloc = none;
  destroy = none;
  commit = none;
  decommit = none;
  purge_lazy = none;
  purge_forced = none;
  split = none;
  merge = none;
}

-- A value in static storage: its address, which is not null, and its immutable contents.
pub record Static (A : Type 0) : Type 0 where
  pub address : ℕ
  pub target : A

pub record ExtentAlloc : Type 0 where
  pub address : Option ℕ
  pub size : ℕ
  pub alignment : ℕ
  pub zeroed : Bool
  pub committed : Bool
  pub arena : ℕ

pub record ExtentAllocation : Type 0 where
  pub address : ℕ
  pub zeroed : Bool
  pub committed : Bool

pub record Extent : Type 0 where
  pub address : ℕ
  pub size : ℕ
  pub committed : Bool
  pub arena : ℕ

pub record ExtentRange : Type 0 where
  pub address : ℕ
  pub size : ℕ
  pub offset : ℕ
  pub length : ℕ
  pub arena : ℕ

pub record ExtentSplit : Type 0 where
  pub address : ℕ
  pub size : ℕ
  pub first_size : ℕ
  pub second_size : ℕ
  pub committed : Bool
  pub arena : ℕ

pub record ExtentMerge : Type 0 where
  pub first_address : ℕ
  pub first_size : ℕ
  pub second_address : ℕ
  pub second_size : ℕ
  pub committed : Bool
  pub arena : ℕ

pub data ExtentHookResult : Type 0 where
  success failure : ExtentHookResult

-- A Rust callback with a shared `&State`. What it changes behind that reference, or in the
-- process, is the change of an environment `E`.
abbrev pub Callback : Type 0 → Type 0 → Type 0 → Type 0 → Type 0
Callback E State Request Result = State → Request → E → Result × E

pub record ExtentCallbacks (E State : Type 0) : Type 0 where
  pub alloc : Option (Callback E State ExtentAlloc (Option ExtentAllocation))
  pub dalloc : Option (Callback E State Extent ExtentHookResult)
  pub destroy : Option (Callback E State Extent (Unit {0}))
  pub commit : Option (Callback E State ExtentRange ExtentHookResult)
  pub decommit : Option (Callback E State ExtentRange ExtentHookResult)
  pub purge_lazy : Option (Callback E State ExtentRange ExtentHookResult)
  pub purge_forced : Option (Callback E State ExtentRange ExtentHookResult)
  pub split : Option (Callback E State ExtentSplit ExtentHookResult)
  pub merge : Option (Callback E State ExtentMerge ExtentHookResult)

-- `ExtentCallbacks::EMPTY`
unfoldable pub empty_callbacks : {E State : Type 0} → ExtentCallbacks E State
empty_callbacks = record {
  alloc = none;
  dalloc = none;
  destroy = none;
  commit = none;
  decommit = none;
  purge_lazy = none;
  purge_forced = none;
  split = none;
  merge = none;
}

-- `ExtentHooks`
pub record ExtentHooks (E State : Type 0) : Type 0 where
  pub raw : RawExtentHooks
  pub callbacks : ExtentCallbacks E State
  pub state : State

-- A slot is filled by its trampoline exactly when the callback is there.
unfoldable pub slot : {A : Type 0} → Option A → ℕ → Option ℕ
slot (some _) trampoline = some trampoline
slot none trampoline = none

-- The addresses of the nine trampolines for one `State`, which the linker chooses.
pub record Trampolines : Type 0 where
  pub alloc : ℕ
  pub dalloc : ℕ
  pub destroy : ℕ
  pub commit : ℕ
  pub decommit : ℕ
  pub purge_lazy : ℕ
  pub purge_forced : ℕ
  pub split : ℕ
  pub merge : ℕ

module _ {E State : Type 0} where
  -- `ExtentHooks::new`
  unfoldable pub new : Trampolines → State → ExtentCallbacks E State → ExtentHooks E State
  unfolding slot
  new t state callbacks = record {
    raw = record {
      alloc = slot callbacks.alloc t.alloc;
      dalloc = slot callbacks.dalloc t.dalloc;
      destroy = slot callbacks.destroy t.destroy;
      commit = slot callbacks.commit t.commit;
      decommit = slot callbacks.decommit t.decommit;
      purge_lazy = slot callbacks.purge_lazy t.purge_lazy;
      purge_forced = slot callbacks.purge_forced t.purge_forced;
      split = slot callbacks.split t.split;
      merge = slot callbacks.merge t.merge;
    };
    callbacks = callbacks;
    state = state;
  }

  -- `as_raw`: the header is the first field under `repr(C)`, so its address is the table's.
  unfoldable pub as_raw : Static (ExtentHooks E State) → Static RawExtentHooks
  as_raw hooks = record { address = hooks.address; target = hooks.target.raw }
