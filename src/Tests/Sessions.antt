-- ===== src/Tests/Sessions.antt =====
-- A session with the global allocator, on a jemalloc that gives out one page after another.
use jevmalloc.Prelude.{suc, ◌*◌, ◌≡◌, refl, arith, false, List, [], ◌∷◌, All, length}
use jevmalloc.System.{Arch, usize_bits, System}
use jevmalloc.Global.Layout.{Layout}
use jevmalloc.Global.Valid.{IsLayout}
use jevmalloc.Global.Audit.{no_blocks, audited, audited_build, enter_mallocx, enter_sdallocx}
use jevmalloc.Global.Sessions.{Request, ask, ask_zeroed, resize, give_back, serve_all, IsProper}
use jevmalloc.Global.Sessions.Honoured.{IsHonoured, sessions_honour}
use jevmalloc.Tests.Toy.{World, toy, start}
use jevmalloc.Tests.Blocks.{build, layout, layout-IsLayout}

abbrev pages : System World
pages = record toy { mallocx = λ size flags w. (4096 * suc (length w), (size ∷ flags ∷ []) ∷ w) }

abbrev small : Layout
small = record { size = 3; align = 1 }

small-IsLayout : IsLayout Arch.x86_64 small
unfolding usize_bits
small-IsLayout = record {
  lg_align = 0;
  is_power = refl;
  in_word = omega arith;
  nonzero = omega arith;
  fits = omega arith;
}

abbrev requests : List Request
requests =
    ask layout
    ∷ ask_zeroed small
    ∷ resize 4096 300
    ∷ give_back 8192
    ∷ give_back 5
    ∷ give_back 4096
    ∷ []

requests-IsProper : All (IsProper (audited pages) (audited_build build)) requests
unfolding audited
requests-IsProper = (layout-IsLayout, (small-IsLayout, (tt, (tt, (tt, (tt, tt))))))

sessions_honour_example : IsHonoured pages build (
    serve_all
      (audited pages)
      (audited_build build)
      (record {
        process = record { world = (start.world, no_blocks); caches = start.caches };
        held = [];
      })
      requests)
sessions_honour_example = sessions_honour pages build refl start requests requests-IsProper

-- The ledger notices a release with another size than was asked for.
wrong_size : (enter_sdallocx 4096 8 0 (enter_mallocx 16 0 4096 no_blocks)).honoured ≡ false
unfolding enter_sdallocx enter_mallocx
wrong_size = refl
