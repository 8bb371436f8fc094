-- ===== src/Global/Audit.antt =====
-- The contract of `mallocx`, `rallocx` and `sdallocx` as jevmalloc-sys/src/extended.rs documents it: a
-- ledger of the blocks that are live, written beside the state of jemalloc by every call.
use jevmalloc.Prelude.{
  ℕ, ◌%◌, Bool, true, false, not, ◌&&◌, Option, none, some, List, [], ◌∷◌, ◌==◌, if◌then◌else◌,
}
use jevmalloc.System.{System, Process}
use jevmalloc.Global.Layout.{Layout}
use jevmalloc.Global.Alloc.{Build}

-- A live block, with the size and the flag word it was asked for.
pub record Block : Type 0 where
  pub ptr : ℕ
  pub size : ℕ
  pub flags : ℕ

-- `honoured` as long as no call has broken the contract.
pub record Ledger : Type 0 where
  pub live : List Block
  pub honoured : Bool

abbrev pub no_blocks : Ledger
no_blocks = record { live = []; honoured = true }

abbrev pub find_block : ℕ → List Block → Option Block
find_block ptr [] = none
find_block ptr (b ∷ rest) =
    let later = find_block ptr rest in if b.ptr == ptr then some b else later

abbrev pub remove_block : ℕ → List Block → List Block
remove_block ptr [] = []
remove_block ptr (b ∷ rest) =
    let later = remove_block ptr rest in if b.ptr == ptr then rest else b ∷ later

-- A null pointer stands for failure, which gives out no block.
abbrev pub with_block : ℕ → ℕ → ℕ → List Block → List Block
with_block ptr size flags live =
    if ptr == 0 then live else record { ptr = ptr; size = size; flags = flags } ∷ live

-- The call `mallocx(size, flags)` that has returned `ptr`.
unfoldable pub enter_mallocx : ℕ → ℕ → ℕ → Ledger → Ledger
enter_mallocx size flags ptr l = record {
  live = with_block ptr size flags l.live;
  honoured = l.honoured && not (size == 0);
}

abbrev pub is_live : Option Block → Bool
is_live none = false
is_live (some b) = true

-- The call `rallocx(old, size, flags)` that has returned `ptr`: the old block stays on failure.
unfoldable pub enter_rallocx : ℕ → ℕ → ℕ → ℕ → Ledger → Ledger
enter_rallocx old size flags ptr l = record {
  live =
      if ptr == 0
      then l.live
      else record { ptr = ptr; size = size; flags = flags } ∷ remove_block old l.live;
  honoured = l.honoured && is_live (find_block old l.live) && not (size == 0);
}

-- A size that is released must lie between the size asked for and the size of the allocation. The
-- former is the only one that the caller knows, so the ledger insists on it, and on the same
-- alignment, which the low six bits of a flag word hold.
abbrev pub is_released : Option Block → ℕ → ℕ → Bool
is_released none size flags = false
is_released (some b) size flags = b.size == size && (b.flags % 64 == flags % 64)

-- The call `sdallocx(ptr, size, flags)`.
unfoldable pub enter_sdallocx : ℕ → ℕ → ℕ → Ledger → Ledger
enter_sdallocx ptr size flags l = record {
  live = remove_block ptr l.live;
  honoured = l.honoured && is_released (find_block ptr l.live) size flags;
}

-- A system with the ledger beside its state.
unfoldable pub audited : {W : Type 0} → System W → System (W × Ledger)
audited s = record {
  arch = s.arch;
  msvc = s.msvc;
  errno = s.errno;
  mallctlnametomib = λ name cap (w, l). let (t, w') = s.mallctlnametomib name cap w in (t, (w', l));
  mallctlbymib =
      λ key old fresh (w, l). let (r, w') = s.mallctlbymib key old fresh w in (r, (w', l));
  mallocx = λ size flags (w, l).
      let (ptr, w') = s.mallocx size flags w in (ptr, (w', enter_mallocx size flags ptr l));
  rallocx = λ old size flags (w, l).
      let (ptr, w') = s.rallocx old size flags w in (ptr, (w', enter_rallocx old size flags ptr l));
  sdallocx =
      λ ptr size flags (w, l). (s.sdallocx ptr size flags w, enter_sdallocx ptr size flags l);
  nallocx = λ size flags (w, l). s.nallocx size flags w;
  sallocx = λ ptr flags (w, l). s.sallocx ptr flags w;
  malloc_stats_print =
      λ opts (w, l). let (fragments, w') = s.malloc_stats_print opts w in (fragments, (w', l));
  literal = s.literal;
  local_buffer = s.local_buffer;
  from_ptr = λ ptr (w, l). s.from_ptr ptr w;
  read_u64 = λ ptr (w, l). s.read_u64 ptr w;
  is_utf8 = s.is_utf8;
}

-- A callback beside the ledger.
abbrev pub aside :
    {W : Type 0} → (Process W → Process W) → Process (W × Ledger) → Process (W × Ledger)
aside f p =
    let q = f (record { world = p.world.0; caches = p.caches }) in
    record { world = (q.world, p.world.1); caches = q.caches }

-- The three shapes of a callback, beside the ledger.
module _ {W : Type 0} where
  abbrev pub aside_layout :
      (Layout → Process W → Process W) → Layout → Process (W × Ledger) → Process (W × Ledger)
  aside_layout f l = aside (f l)

  abbrev pub aside_pointer :
      (Layout → ℕ → Process W → Process W)
      → Layout
      → ℕ
      → Process (W × Ledger)
      → Process (W × Ledger)
  aside_pointer f l ptr = aside (f l ptr)

  abbrev pub aside_resize :
      (Layout → ℕ → ℕ → Process W → Process W)
      → Layout
      → ℕ
      → ℕ
      → Process (W × Ledger)
      → Process (W × Ledger)
  aside_resize f l ptr size = aside (f l ptr size)

abbrev pub map_slot : {H K : Type 0} → (H → K) → Option H → Option K
map_slot f none = none
map_slot f (some hook) = some (f hook)

-- A build whose callbacks leave the ledger alone.
unfoldable pub audited_build : {W : Type 0} → Build W → Build (W × Ledger)
audited_build b = record {
  global_hooks = b.global_hooks;
  debug_assertions = b.debug_assertions;
  on_alloc = map_slot aside_layout b.on_alloc;
  on_alloc_zeroed = map_slot aside_layout b.on_alloc_zeroed;
  on_realloc = map_slot aside_resize b.on_realloc;
  on_dealloc = map_slot aside_pointer b.on_dealloc;
}
