-- ===== src/Clients/Programs.antt =====
-- Programs over the controls, run by the crate and run by a crate without key caches.

use jevmalloc.System.{System, Process, Outcome, ok, Action}
use jevmalloc.Ctl.Key.{new}
use jevmalloc.Clients.Answers.{Answer, nothing}
use jevmalloc.Clients.Arenas.{ArenaCall, AllCall, perform_arena, perform_all}
use jevmalloc.Clients.Threads.{ThreadCall, CacheCall, perform_thread, perform_cache}
use jevmalloc.Clients.Queries.{QueryCall, perform_query}

-- `elsewhere` is whatever else changes the state of jemalloc, such as an allocation.
pub data Call (W : Type 0) : Type 0 where
  on_arena : ArenaCall → Call W
  on_all : AllCall → Call W
  on_thread : ThreadCall → Call W
  on_cache : CacheCall → Call W
  query : QueryCall → Call W
  elsewhere : (W → W) → Call W

-- A program decides on its next call by how the last one ended, a panic that it caught included.
pub data Client (W R : Type 0) : Type 0 where
  finished : R → Client W R
  ask : Call W → (Outcome Answer → Client W R) → Client W R

module _ {W : Type 0} (s : System W) where
  unfoldable pub perform : Call W → Action W Answer
  perform (on_arena c) = perform_arena s c
  perform (on_all c) = perform_all s c
  perform (on_thread c) = perform_thread s c
  perform (on_cache c) = perform_cache s c
  perform (query c) = perform_query s c
  perform (elsewhere f) = λ p. (ok nothing, record p { world = f p.world })

  -- What a program makes of a process: its result, and the process as it leaves it.
  unfoldable pub run : {R : Type 0} → Client W R → Process W → R × Process W
  run (finished r) p = (r, p)
  run (ask c next) p = let (answer, p') = perform c p in run (next answer) p'

  -- The same program where every call starts with empty statics, so that every name is translated
  -- anew: only the state of jemalloc lives from one call to the next.
  unfoldable pub run_uncached : {R : Type 0} → Client W R → W → R × W
  run_uncached (finished r) w = (r, w)
  run_uncached (ask c next) w =
      let (answer, p') = perform c (record { world = w; caches = λ _. new }) in
      run_uncached (next answer) p'.world
