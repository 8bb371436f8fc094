-- ===== src/Tests/Memory.antt =====
-- An execution on the weak memory: thread 3 misses the publication of thread 1 and translates the
-- name again, and thread 2 takes over the older publication with segments of both.
use jevmalloc.Prelude.{ℕ, ◌≡◌, refl, arith, [], ◌∷◌, List, All}
use jevmalloc.System.{ok}
use jevmalloc.Ctl.Key.Threads.{finished, reading, translated}
use jevmalloc.Ctl.Key.Relaxed.{
  initial, recent, recent_len, relaxed_step, relaxed_advance, relaxed_run,
}
use jevmalloc.Ctl.Schedules.{IsAnswered}
use jevmalloc.Ctl.Visibility.{IsPublication}
use jevmalloc.Ctl.Publication.{fresh_world, EndsWithin, relaxed_run-IsAnswered, relaxed_run-ends}
use jevmalloc.Tests.Toy.{linux}

abbrev key_of_reset : List ℕ
key_of_reset = 3 ∷ 0 ∷ 17 ∷ []

abbrev moves : List (ℕ × ℕ)
moves =
    (1, 0)
    ∷ (1, 1)
    ∷ (1, 1)
    ∷ (1, 1)
    ∷ (1, 1)
    ∷ (3, 1)
    ∷ (3, 2)
    ∷ (3, 2)
    ∷ (3, 2)
    ∷ (3, 2)
    ∷ (2, 1)
    ∷ (2, 0)
    ∷ (2, 1)
    ∷ (2, 0)
    ∷ (2, 0)
    ∷ []

relaxed_run-IsAnswered_example :
    let w = relaxed_run linux (ok key_of_reset) fresh_world moves in
    All (IsPublication key_of_reset) w.memory.lens
    × IsAnswered linux key_of_reset (w.callers 2).phase
relaxed_run-IsAnswered_example =
    relaxed_run-IsAnswered linux key_of_reset (omega arith) (omega arith) moves 2

relaxed_reader :
    ((relaxed_run linux (ok key_of_reset) fresh_world moves).callers 2).phase
    ≡ finished (ok key_of_reset)
unfolding relaxed_run relaxed_advance relaxed_step recent recent_len initial translated
relaxed_reader = refl

-- A load that may not return the initial zero leaves its caller where it is.
no_stale_read :
    ((relaxed_run linux
        (ok key_of_reset)
        fresh_world
        ((1, 0) ∷ (1, 1) ∷ (1, 1) ∷ (1, 1) ∷ (1, 1) ∷ (2, 0) ∷ (2, 1) ∷ [])).callers
      2).phase
    ≡ reading 3 []
unfolding relaxed_run relaxed_advance relaxed_step recent recent_len initial translated
no_stale_read = refl

-- Thread 3 is left between two stores, and thread 1 has published.
abbrev half_way : List (ℕ × ℕ)
half_way = (3, 0) ∷ (3, 1) ∷ (1, 0) ∷ (1, 2) ∷ (1, 1) ∷ (1, 1) ∷ (1, 1) ∷ []

relaxed_run-ends_example :
    EndsWithin linux key_of_reset 10 (relaxed_run linux (ok key_of_reset) fresh_world half_way) 3
relaxed_run-ends_example =
    relaxed_run-ends linux key_of_reset (omega arith) (omega arith) half_way 3
