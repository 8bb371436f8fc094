-- ===== src/Tests/Blocks.antt =====
-- Theorems on layouts, requests and flag words at concrete inputs.
use jevmalloc.Prelude.{
  ◌+◌, ◌*◌, ◌/◌, ◌%◌, ◌^◌, ◌≤◌, ◌<◌, ◌≡◌, ◌⊎◌, refl, arith, true, false, none, some, [], ◌∷◌, leb,
  ◌&&◌, ◌==◌, if◌then◌else◌, Bool-cases, inl, inr,
}
use jevmalloc.System.{Arch, quantum, usize_bits, ok, System}
use jevmalloc.Flags.{
  mallocx_arena, mallocx_tcache, mallocx_tcache_none, mallocx_zero, int_mod, mallocx_align,
  trailing_zeros,
}
use jevmalloc.Flags.Fields.{fields_round_trip}
use jevmalloc.Global.Layout.{Layout, adjust_layout, layout_flags}
use jevmalloc.Global.Alloc.{Build, alloc, observe, alloc_zeroed, realloc}
use jevmalloc.Global.Checks.{
  IsServing, alloc_passes_checks, IsReserving, other_requests_pass_checks,
}
use jevmalloc.Global.Valid.{IsLayout, adjust_layout-IsLayout}
use jevmalloc.Global.Requests.{SameRequest, same_request, layout_flags_cases}
use jevmalloc.Tests.Toy.{World, toy, start}

abbrev pub layout : Layout
layout = record { size = 100; align = 64 }

-- A release build with a callback on `dealloc`.
abbrev pub build : Build World
build = record {
  global_hooks = true;
  debug_assertions = false;
  on_alloc = none;
  on_alloc_zeroed = none;
  on_realloc = none;
  on_dealloc = some λ l ptr p. record p { world = (ptr ∷ []) ∷ p.world };
}

pub layout-IsLayout : IsLayout Arch.x86_64 layout
unfolding usize_bits
layout-IsLayout = record {
  lg_align = 6;
  is_power = refl;
  in_word = omega arith;
  nonzero = omega arith;
  fits = omega arith;
}

same_request_example : SameRequest toy build layout 4096 50 start
same_request_example = same_request toy build refl layout 4096 50 start layout-IsLayout

adjust_layout-IsLayout_example :
    IsLayout Arch.x86_64 (adjust_layout Arch.x86_64 layout)
    × (100 ≤ (adjust_layout Arch.x86_64 layout).size)
    × (quantum Arch.x86_64 ≤ (adjust_layout Arch.x86_64 layout).size)
adjust_layout-IsLayout_example = adjust_layout-IsLayout Arch.x86_64 layout layout-IsLayout

layout_flags_cases_example :
    (64 ≡ 2 ^ layout_flags Arch.x86_64 layout)
    ⊎ ((layout_flags Arch.x86_64 layout ≡ 0) × (64 ≤ quantum Arch.x86_64) × (64 ≤ 100))
layout_flags_cases_example = layout_flags_cases Arch.x86_64 layout layout-IsLayout

fields_round_trip_example :
    let word = mallocx_arena 7 + mallocx_tcache Arch.x86 9 + 1 * mallocx_zero + 12 in
    (word < int_mod)
    × (word / 2 ^ 20 ≡ 8)
    × (word % 2 ^ 20 / 2 ^ 8 ≡ 11)
    × (word % 2 ^ 7 / 2 ^ 6 ≡ 1)
    × (word % 2 ^ 6 ≡ 12)
    × (mallocx_tcache_none Arch.x86 < mallocx_tcache Arch.x86 9)
fields_round_trip_example =
    fields_round_trip Arch.x86 7 9 12 1 (omega arith) (omega arith) (omega arith) (omega arith)

-- A system that serves small requests of the alignment 64, and refuses all others.
abbrev limited : System World
limited = record toy {
  mallocx = λ size flags w.
      if leb size 128 && (flags % 64 == 6) then (4096, (size ∷ flags ∷ []) ∷ w) else (0, w);
  rallocx = λ old size flags w.
      if leb size 128 && (flags % 64 == 6) then (8192, (old ∷ size ∷ flags ∷ []) ∷ w) else (0, w);
  sallocx = λ ptr flags w. 128;
}

limited-IsServing : IsServing limited
unfolding quantum
limited-IsServing size flags w = elim (Bool-cases (leb size 128 && (flags % 64 == 6))) [
  | inl small ↦
      (let e : flags % 64 ≡ 6 = ground arith in
        rw small (
          inr record {
            class_size = omega arith;
            usable = ground arith;
            aligned = rw e refl;
            fundamental = λ h. refl;
          }))
  | inr large ↦ rw large (inl refl)
]

abbrev debug_build : Build World
debug_build = record build { debug_assertions = true }

alloc_passes_checks_example :
    alloc limited debug_build layout start ≡ (ok 4096, record start { world = (100 ∷ 6 ∷ []) ∷ [] })
unfolding adjust_layout layout_flags mallocx_align trailing_zeros quantum usize_bits observe
alloc_passes_checks_example =
    alloc_passes_checks limited debug_build limited-IsServing layout start layout-IsLayout

limited-IsReserving : IsReserving limited
unfolding quantum
limited-IsReserving old size flags w = elim (Bool-cases (leb size 128 && (flags % 64 == 6))) [
  | inl small ↦
      (let e : flags % 64 ≡ 6 = ground arith in
        rw small (
          inr record {
            class_size = omega arith;
            usable = ground arith;
            aligned = rw e refl;
            fundamental = λ h. refl;
          }))
  | inr large ↦ rw large (inl refl)
]

larger-IsLayout : IsLayout Arch.x86_64 (record layout { size = 120 })
unfolding usize_bits
larger-IsLayout = record {
  lg_align = 6;
  is_power = refl;
  in_word = omega arith;
  nonzero = omega arith;
  fits = omega arith;
}

other_requests_pass_checks_example :
    (alloc_zeroed limited debug_build layout start
      ≡ (ok 4096, record start { world = (100 ∷ 70 ∷ []) ∷ [] }))
    × (realloc limited debug_build 4096 layout 120 start
        ≡ (ok 8192, record start { world = (4096 ∷ 120 ∷ 6 ∷ []) ∷ [] }))
unfolding adjust_layout layout_flags mallocx_align trailing_zeros quantum usize_bits observe
other_requests_pass_checks_example =
    other_requests_pass_checks limited debug_build limited-IsServing limited-IsReserving 4096 layout
      120 start layout-IsLayout larger-IsLayout
