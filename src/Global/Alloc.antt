-- ===== src/Global/Alloc.antt =====
-- The operations of `GlobalAlloc` in jevmalloc/src/global.rs, and the slots of global/hook.rs.
-- The profile and the features of the build are the fields of `Build`.
use Prim.Native.Nat.{bit_or}
use jevmalloc.Prelude.{
  ℕ, ◌%◌, Bool, true, false, ◌&&◌, Option, none, some, leb, ◌==◌, if◌then◌else◌,
}
use jevmalloc.System.{System, Process, ok, Action, pure, assert, ◌>>=◌, ◌>>◌}
use jevmalloc.Flags.{mallocx_zero}
use jevmalloc.Global.Layout.{Layout, adjust_layout, layout_flags}

-- The callback slots of hook.rs; a callback may change the process. `global_hooks` is the feature
-- under which they are consulted, `debug_assertions` the profile that checks `debug_assert!`.
pub record Build (W : Type 0) : Type 0 where
  pub global_hooks : Bool
  pub debug_assertions : Bool
  pub on_alloc : Option (Layout → Process W → Process W)
  pub on_alloc_zeroed : Option (Layout → Process W → Process W)
  pub on_realloc : Option (Layout → ℕ → ℕ → Process W → Process W)
  pub on_dealloc : Option (Layout → ℕ → Process W → Process W)

-- One consultation of a slot.
unfoldable pub observe :
    {W H : Type 0} → Bool → Option H → (H → Process W → Process W) → Action W (Unit {0})
observe true (some hook) call p = (ok tt, call hook p)
observe true none call p = (ok tt, p)
observe false hook call p = (ok tt, p)

module _ {W : Type 0} (s : System W) (b : Build W) where
  -- The three FFI calls of the allocator, as actions.
  abbrev mallocx : ℕ → ℕ → Action W ℕ
  mallocx size flags p =
      let (ptr, w) = s.mallocx size flags p.world in (ok ptr, record p { world = w })

  abbrev rallocx : ℕ → ℕ → ℕ → Action W ℕ
  rallocx old size flags p =
      let (ptr, w) = s.rallocx old size flags p.world in (ok ptr, record p { world = w })

  abbrev sdallocx : ℕ → ℕ → ℕ → Action W (Unit {0})
  sdallocx ptr size flags p = (ok tt, record p { world = s.sdallocx ptr size flags p.world })

  -- `debug_validate`: three `debug_assert!`s on a pointer that is not null.
  unfoldable pub debug_validate : ℕ → Layout → ℕ → Action W (Unit {0})
  debug_validate ptr layout flags p =
      if ptr == 0
      then (ok tt, p)
      else if b.debug_assertions
      then assert
          (leb layout.size (s.nallocx layout.size flags p.world)
            && (ptr % layout.align == 0)
            && leb layout.size (s.sallocx ptr flags p.world))
          p
      else (ok tt, p)

  unfoldable pub alloc : Layout → Action W ℕ
  alloc layout = do
    observe b.global_hooks b.on_alloc (λ hook. hook layout)
    let layout' = adjust_layout s.arch layout
    let flags = layout_flags s.arch layout'
    ptr ← mallocx layout'.size flags
    debug_validate ptr layout' flags
    pure ptr

  unfoldable pub alloc_zeroed : Layout → Action W ℕ
  alloc_zeroed layout = do
    observe b.global_hooks b.on_alloc_zeroed (λ hook. hook layout)
    let layout' = adjust_layout s.arch layout
    let flags = bit_or (layout_flags s.arch layout') mallocx_zero
    ptr ← mallocx layout'.size flags
    debug_validate ptr layout' flags
    pure ptr

  unfoldable pub realloc : ℕ → Layout → ℕ → Action W ℕ
  realloc old layout new_size = do
    observe b.global_hooks b.on_realloc (λ hook. hook layout old new_size)
    let layout' = adjust_layout s.arch (record layout { size = new_size })
    let flags = layout_flags s.arch layout'
    ptr ← rallocx old layout'.size flags
    debug_validate ptr layout' flags
    pure ptr

  unfoldable pub dealloc : ℕ → Layout → Action W (Unit {0})
  dealloc ptr layout = do
    observe b.global_hooks b.on_dealloc (λ hook. hook layout ptr)
    let layout' = adjust_layout s.arch layout
    let flags = layout_flags s.arch layout'
    debug_validate ptr layout' flags
    sdallocx ptr layout'.size flags
