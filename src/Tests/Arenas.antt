-- ===== src/Tests/Arenas.antt =====
-- Theorems on arenas and thread caches at concrete inputs.
use jevmalloc.Prelude.{ℕ, some, ◌≡◌, true, false}
use jevmalloc.System.{panic}
use jevmalloc.Tests.Toy.{toy, start, toy-IsStable, start-IsCoherent, nonzero}
use jevmalloc.Arena.Handle
use jevmalloc.Arena.Handle.{
  Arena, create, from_index, from_owned_index, current, lookup, set_current, into_index,
}
use jevmalloc.Arena.Lifecycle
use jevmalloc.Arena.Lifecycle.{ownership}
use jevmalloc.Arena.Ranges.{Yields, constructors-Yields}
use jevmalloc.Extent.Hooks.{
  RawExtentHooks, Static, ExtentHooks, empty_raw_extent_hooks, empty_callbacks,
}
use jevmalloc.Arena.Controls.{
  create_with_extent_hooks, create_with_raw_extent_hooks, decay, purge, trim, reset,
}
use jevmalloc.Arena.Targets.{Reaches, commands-Reaches}

abbrev owner : Arena
owner = record { index = 5; owned = true }

abbrev guest : Arena
guest = record { index = 5; owned = false }

ownership_example :
    (Handle.try_destroy toy owner start
      ≡ Lifecycle.resolved toy owner (Handle.destroy_command toy owner start))
    × (Handle.drop toy owner start ≡ (Handle.destroy_command toy owner start).1)
ownership_example = ownership toy nonzero owner start

commands-Reaches_example :
    Reaches toy "arena.0.decay" guest start (decay toy guest)
    × Reaches toy "arena.0.purge" guest start (purge toy guest)
    × Reaches toy "arena.0.destroy" guest start (Handle.destroy_command toy guest)
    × Reaches toy "arena.0.reset" owner start (reset toy owner)
    × ((trim toy guest start).0 ≡ panic → ⊥)
commands-Reaches_example = commands-Reaches toy toy-IsStable nonzero guest start start-IsCoherent

-- Two hook tables in static storage that offer nothing but an allocation.
abbrev raw_table : Static RawExtentHooks
raw_table = record { address = 64; target = record empty_raw_extent_hooks { alloc = some 101 } }

abbrev table : Static (ExtentHooks ℕ ℕ)
table = record {
  address = 128;
  target = record { raw = raw_table.target; callbacks = empty_callbacks; state = 3 };
}

constructors-Yields_example :
    Yields true (create toy start).0
    × Yields true (create_with_extent_hooks toy table start).0
    × Yields true (create_with_raw_extent_hooks toy raw_table start).0
    × Yields true (from_owned_index toy 4094)
    × Yields false (from_index toy 4094)
    × Yields false (current toy start).0
    × Yields false (lookup toy 4096 start).0
    × Yields false (set_current toy guest start).0
constructors-Yields_example = constructors-Yields toy 4094 4096 guest raw_table table start
