-- ===== src/Tests/Control.antt =====
-- Theorems on names, keys and arenas at concrete inputs.
use jevmalloc.Prelude.{ℕ, ◌+◌, ◌≤◌, ◌≡◌, ◌⊎◌, refl, List, [], ◌∷◌, codes, length}
use jevmalloc.System.{ok, err}
use jevmalloc.Tests.Toy.{toy, start, toy-IsStable, start-IsCoherent, nonzero}
use jevmalloc.Ctl.Error.{into_result}
use jevmalloc.Ctl.Raw.{Key, mibs, is_rejected, name_buf, checked_key, split_count, key_segs}
use jevmalloc.Ctl.Key.{key}
use jevmalloc.Ctl.Names.{c_string, IsMalformed, IsWellFormed, dots, key_in, length-mibs, mibs_cases}
use jevmalloc.Ctl.Caching.{IsCoherent, key_transparent}

abbrev key_of_decay : Key
key_of_decay = 10 ∷ 11 ∷ 12 ∷ []

key_transparent_example :
    ((key toy "arena.0.decay" start).0 ≡ (mibs toy (codes "arena.0.decay") start).0)
    × ((key toy "arena.0.decay" start).1.world ≡ [])
    × IsCoherent toy (key toy "arena.0.decay" start).1
key_transparent_example = key_transparent toy toy-IsStable "arena.0.decay" start start-IsCoherent

decay_key : (mibs toy (codes "arena.0.decay") start).0 ≡ ok key_of_decay
unfolding mibs is_rejected split_count checked_key into_result c_string name_buf
decay_key = refl

length-mibs_example : (3 ≡ split_count (codes "arena.0.decay")) × (3 ≤ key_segs)
length-mibs_example = length-mibs toy (codes "arena.0.decay") start decay_key

mibs_cases_example :
    (IsMalformed (codes "epoch")
      × (mibs toy (codes "epoch") start ≡ (err (record { code = 22 }), start)))
    ⊎ (IsWellFormed (codes "epoch")
        × ((name : List ℕ) × (c_string name ≡ codes "epoch")
            × (length name ≡ 128)
            × (let (t, w) = toy.mallctlnametomib name 8 [] in
                mibs toy (codes "epoch") start
                ≡ (key_in toy (1 + dots (codes "epoch")) t, record start { world = w }))))
mibs_cases_example = mibs_cases toy nonzero (codes "epoch") start
