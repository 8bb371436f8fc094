-- ===== src/Tests/Threads.antt =====
-- Theorems on concurrent callers of a key accessor at concrete interleavings.
use jevmalloc.Prelude.{ℕ, ◌≡◌, ◌⊎◌, refl, arith, [], ◌∷◌, List, take}
use jevmalloc.System.{ok}
use jevmalloc.Ctl.Raw.{Key}
use jevmalloc.Ctl.Key.{new}
use jevmalloc.Ctl.Key.Threads.{finished, run, advance, step, translated}
use jevmalloc.Ctl.Schedules.{first_callers, IsAnswered, run-finished, run-IsAnswered}
use jevmalloc.Tests.Toy.{linux}

abbrev key_of_reset : Key
key_of_reset = 3 ∷ 0 ∷ 17 ∷ []

-- Thread 1 translates too, and is overtaken between its stores.
abbrev order : List ℕ
order = 1 ∷ 2 ∷ 1 ∷ 2 ∷ 2 ∷ 2 ∷ 2 ∷ 3 ∷ 1 ∷ 3 ∷ 1 ∷ 3 ∷ 1 ∷ 3 ∷ 3 ∷ 2 ∷ 2 ∷ 2 ∷ 2 ∷ 2 ∷ []

run-finished_example :
    (run linux (ok key_of_reset) first_callers order).phases 2 ≡ finished (ok key_of_reset)
run-finished_example =
    run-finished linux key_of_reset (omega arith) (omega arith) order 2 (omega arith)

abbrev early : List ℕ
early = 1 ∷ 2 ∷ 1 ∷ 2 ∷ 2 ∷ []

run-IsAnswered_example :
    let s = run linux (ok key_of_reset) first_callers early in
    ((s.cache.len ≡ 0) ⊎ (take s.cache.len s.cache.segments ≡ key_of_reset))
    × IsAnswered linux key_of_reset (s.phases 2)
run-IsAnswered_example = run-IsAnswered linux key_of_reset (omega arith) (omega arith) early 2

-- A caller that comes after the publication reads the key without translating.
late_reader :
    (run linux (ok key_of_reset) first_callers order).phases 3 ≡ finished (ok key_of_reset)
unfolding run advance step translated new
late_reader = refl
