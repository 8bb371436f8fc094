-- ===== src/Tests/Programs.antt =====
-- The theorem on programs over the controls at a program that creates, uses and destroys an arena.
use jevmalloc.Prelude.{refl, ◌≡◌, [], ◌∷◌}
use jevmalloc.System.{Outcome, ok}
use jevmalloc.Ctl.Caching.{IsCoherent}
use jevmalloc.Arena.Handle.{Arena}
use jevmalloc.Clients.Answers.{Answer, arena}
use jevmalloc.Clients.Arenas.{perform_arena, create, decay, try_destroy}
use jevmalloc.Clients.Programs.{
  perform, on_arena, elsewhere, Client, finished, ask, run, run_uncached,
}
use jevmalloc.System.{usize_bits}
use jevmalloc.Arena.Handle
use jevmalloc.Arena.Controls
use jevmalloc.Arena.Index.{usize_try_from, validated_index, uint_try_from}
use jevmalloc.Ctl.Error.{into_result}
use jevmalloc.Ctl.Raw
use jevmalloc.Ctl.Raw.{get, mibs, is_rejected, split_count, checked_key, name_buf}
use jevmalloc.Ctl.Key.{key, translate, publish, store, load, push_all, new}
use jevmalloc.Ctl.Names.{c_string}
use jevmalloc.Clients.Agreement.{run-run_uncached}
use jevmalloc.Tests.Toy.{World, toy, start, toy-IsStable, start-IsCoherent}

-- With an arena: decay it twice, with another change of the state between, and destroy it.
abbrev with_arena : Arena → Client World (Outcome Answer)
with_arena a = ask (on_arena (decay a)) λ _.
    ask (elsewhere λ w. [] ∷ w)
      λ _. ask (on_arena (decay a)) λ _. ask (on_arena (try_destroy a)) λ r. finished r

abbrev after_create : Outcome Answer → Client World (Outcome Answer)
after_create (ok (arena a)) = with_arena a
after_create r = finished r

abbrev busy : Client World (Outcome Answer)
busy = ask (on_arena create) after_create

run-run_uncached_example :
    ((run toy busy start).0 ≡ (run_uncached toy busy []).0)
    × ((run toy busy start).1.world ≡ (run_uncached toy busy []).1)
    × IsCoherent toy (run toy busy start).1
run-run_uncached_example = run-run_uncached toy toy-IsStable busy start start-IsCoherent

-- The program reaches jemalloc: with the arena 7 it creates, decays, decays and destroys.
busy_calls :
    (run toy busy start).1.world
    ≡ (10 ∷ 7 ∷ 12 ∷ []) ∷ (10 ∷ 7 ∷ 12 ∷ []) ∷ [] ∷ (10 ∷ 7 ∷ 12 ∷ []) ∷ (10 ∷ 11 ∷ []) ∷ []
unfolding run perform perform_arena Handle.create Controls.decay Handle.try_destroy
    Handle.finish_destroy Handle.destroy Handle.destroy_command Handle.disarm Handle.drop
    Handle.select Handle.notify Handle.from_created_index usize_try_from validated_index
    uint_try_from usize_bits Raw.notify get into_result key translate publish store load push_all
    new mibs is_rejected split_count checked_key name_buf c_string
busy_calls = refl
