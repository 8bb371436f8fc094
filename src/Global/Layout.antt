-- ===== src/Global/Layout.antt =====
-- jevmalloc/src/global/layout.rs: layout normalisation and the choice of the flag word.
use jevmalloc.Prelude.{ℕ, ◌&&◌, leb, ◌==◌, if◌then◌else◌}
use Prim.Native.Nat.{max}
use jevmalloc.System.{Arch, quantum, System}
use jevmalloc.Flags.{mallocx_align}

-- `core::alloc::Layout`
pub record Layout : Type 0 where
  pub size : ℕ
  pub align : ℕ

-- `adjust_layout`; the size is nonzero by the caller's contract.
unfoldable pub adjust_layout : Arch → Layout → Layout
unfolding quantum
adjust_layout arch l = record { size = max l.size (quantum arch); align = l.align }

unfoldable pub layout_flags : Arch → Layout → ℕ
unfolding quantum mallocx_align
layout_flags arch l =
    if leb l.align (quantum arch) && leb l.align l.size then 0 else mallocx_align arch l.align

-- `usable_size`
unfoldable pub usable_size : {W : Type 0} → System W → ℕ → W → ℕ
usable_size s ptr w = if ptr == 0 then 0 else s.sallocx ptr 0 w
