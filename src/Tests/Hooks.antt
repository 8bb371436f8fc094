-- ===== src/Tests/Hooks.antt =====
-- Theorems on extent hooks at concrete inputs.
use jevmalloc.Prelude.{ℕ, arith, [], ◌∷◌, codes, ◌+◌, ◌≡◌, refl, true, false, none, some}
use jevmalloc.System.{ok}
use jevmalloc.Ctl.Error.{into_result}
use jevmalloc.Ctl.Raw.{Key, mibs, is_rejected, split_count, checked_key, name_buf}
use jevmalloc.Ctl.Names.{c_string}
use jevmalloc.Arena.Handle.{Arena}
use jevmalloc.Arena.Controls.{
  create_with_extent_hooks, set_extent_hooks, create_with_raw_extent_hooks, set_raw_extent_hooks,
}
use jevmalloc.Extent.Hooks.{
  RawExtentHooks, Static, ExtentRange, ExtentCallbacks, ExtentHooks, Trampolines, success, failure,
  new, empty_raw_extent_hooks,
}
use jevmalloc.Extent.Trampolines.{
  from_bool, non_null, alloc, dalloc, commit, decommit, purge_lazy, purge_forced, split, merge,
}
use jevmalloc.Extent.Checked.{checked_alloc}
use jevmalloc.Extent.Checked.Honoured.{IsHonest, checked_alloc-IsHonest}
use jevmalloc.Extent.Reports.{Reports, Serves, trampolines-Reports, alloc-Serves}
use jevmalloc.Extent.Install.{Decides}
use jevmalloc.Extent.Install.Cases.{install_cases}
use jevmalloc.Tests.Toy.{toy, toy-IsStable, start, start-IsCoherent, nonzero}

abbrev trampolines : Trampolines
trampolines = record {
  alloc = 101;
  dalloc = 102;
  destroy = 103;
  commit = 104;
  decommit = 105;
  purge_lazy = 106;
  purge_forced = 107;
  split = 108;
  merge = 109;
}

-- The state counts the calls; a commit succeeds, a decommit does not, and no merge is offered.
abbrev callbacks : ExtentCallbacks ℕ ℕ
callbacks = record {
  alloc = some λ state r n.
      (some (record { address = state; zeroed = true; committed = r.committed }), n + 1);
  dalloc = none;
  destroy = none;
  commit = some λ state r n. (success, n + 1);
  decommit = some λ state r n. (failure, n + 1);
  purge_lazy = none;
  purge_forced = none;
  split = some λ state r n. (success, n + 1);
  merge = none;
}

abbrev hooks : ExtentHooks ℕ ℕ
hooks = record { raw = empty_raw_extent_hooks; callbacks = callbacks; state = 8192 }

abbrev unable : ExtentCallbacks ℕ ℕ
unable = record callbacks { alloc = none }

abbrev raw_table : Static RawExtentHooks
raw_table = record { address = 64; target = record empty_raw_extent_hooks { alloc = some 101 } }

abbrev table : Static (ExtentHooks ℕ ℕ)
table = record { address = 128; target = new trampolines 8192 unable }

abbrev arena : Arena
arena = record { index = 5; owned = false }

create_key : (mibs toy (codes "arenas.create") start).0 ≡ ok (10 ∷ 11 ∷ [])
unfolding mibs is_rejected split_count checked_key into_result c_string name_buf
create_key = refl

hooks_key : (mibs toy (codes "arena.0.extent_hooks") start).0 ≡ ok (10 ∷ 11 ∷ 12 ∷ [])
unfolding mibs is_rejected split_count checked_key into_result c_string name_buf
hooks_key = refl

-- A raw table that is installed, and one of `new` that is refused.
install_cases_example :
    let k : Key = 10 ∷ 11 ∷ [] in
    let k' : Key = 10 ∷ 11 ∷ 12 ∷ [] in
    Decides toy raw_table.target.alloc 64 arena k k' start
      (create_with_raw_extent_hooks toy raw_table)
      (set_raw_extent_hooks toy arena raw_table)
    × Decides toy unable.alloc 128 arena k k' start
        (create_with_extent_hooks toy table)
        (set_extent_hooks toy arena table)
install_cases_example =
    install_cases toy toy-IsStable nonzero (omega arith) arena (10 ∷ 11 ∷ []) (10 ∷ 11 ∷ 12 ∷ [])
      start start-IsCoherent create_key hooks_key raw_table 128 trampolines 8192 unable

abbrev whole : ExtentRange
whole = record { address = 64; size = 32; offset = 16; length = 8; arena = 5 }

trampolines-Reports_example :
    let c = callbacks in
    Reports hooks c.commit whole 3 (commit hooks 64 32 16 8 5 3)
    × Reports hooks c.decommit whole 3 (decommit hooks 64 32 16 8 5 3)
    × Reports hooks c.purge_lazy whole 3 (purge_lazy hooks 64 32 16 8 5 3)
    × Reports hooks c.purge_forced whole 3 (purge_forced hooks 64 32 16 8 5 3)
    × Reports hooks c.dalloc
        (record { address = 64; size = 32; committed = from_bool 1; arena = 5 })
        3
        (dalloc hooks 64 32 1 5 3)
    × Reports hooks c.split
        (record {
          address = 64;
          size = 32;
          first_size = 16;
          second_size = 8;
          committed = from_bool 1;
          arena = 5;
        })
        3
        (split hooks 64 32 16 8 1 5 3)
    × Reports hooks c.merge
        (record {
          first_address = 64;
          first_size = 32;
          second_address = 16;
          second_size = 8;
          committed = from_bool 1;
          arena = 5;
        })
        3
        (merge hooks 64 32 16 8 1 5 3)
trampolines-Reports_example = trampolines-Reports hooks 64 32 16 8 1 5 3

alloc-Serves_example :
    Serves hooks 0 1
      (record {
        address = non_null 0;
        size = 32;
        alignment = 16;
        zeroed = from_bool 0;
        committed = from_bool 1;
        arena = 5;
      })
      3
      callbacks.alloc
      (alloc hooks 0 32 16 0 1 5 3)
alloc-Serves_example = alloc-Serves hooks 0 32 16 0 1 5 3

checked_alloc-IsHonest_example :
    IsHonest 64 0 1 (checked_alloc hooks true 64 32 16 0 1 5 3).0
    × (checked_alloc hooks false 64 32 16 0 1 5 3
        ≡ (some (alloc hooks 64 32 16 0 1 5 3).0, (alloc hooks 64 32 16 0 1 5 3).1))
checked_alloc-IsHonest_example = checked_alloc-IsHonest hooks 64 32 16 0 1 5 3
