-- ===== src/Clients/Agreement.antt =====
-- No program over the controls can tell that the crate caches keys.
use jevmalloc.Prelude.{◌≡◌, refl, ap, ◌∙◌}
use jevmalloc.System.{System, Process, ok}
use jevmalloc.Ctl.Key.{new}
use jevmalloc.Ctl.Caching.{IsStable, IsCoherent, initial-IsCoherent}
use jevmalloc.Ctl.Blindness.{IsBlind, on_world-IsBlind}
use jevmalloc.Clients.Answers.{nothing}
use jevmalloc.Clients.Arenas.{perform_arena-IsBlind, perform_all-IsBlind}
use jevmalloc.Clients.Threads.{perform_thread-IsBlind, perform_cache-IsBlind}
use jevmalloc.Clients.Queries.{perform_query-IsBlind}
use jevmalloc.Clients.Programs.{
  Call, on_arena, on_all, on_thread, on_cache, query, elsewhere, Client, finished, ask, perform,
  run, run_uncached,
}

module _ {W : Type 0} (s : System W) (st : IsStable s) where
  perform-IsBlind : (c : Call W) → IsBlind s (perform s c)
  unfolding perform
  perform-IsBlind (on_arena c) = perform_arena-IsBlind s st c
  perform-IsBlind (on_all c) = perform_all-IsBlind s st c
  perform-IsBlind (on_thread c) = perform_thread-IsBlind s st c
  perform-IsBlind (on_cache c) = perform_cache-IsBlind s st c
  perform-IsBlind (query c) = perform_query-IsBlind s st c
  perform-IsBlind (elsewhere f) = on_world-IsBlind s λ w. (ok nothing, f w)

  -- Where names are translated as documented: from a coherent process every program over the
  -- controls of the crate, whatever calls it makes and however these depend on earlier answers,
  -- ends with the same result and the same state of jemalloc as with a crate that has no cached key
  -- at any of its calls, and the process is coherent again.
  pub run-run_uncached :
      {R : Type 0} (client : Client W R) (p : Process W)
      → IsCoherent s p
      → ((run s client p).0 ≡ (run_uncached s client p.world).0)
        × ((run s client p).1.world ≡ (run_uncached s client p.world).1)
        × IsCoherent s (run s client p).1
  unfolding run run_uncached
  run-run_uncached (finished r) p h = (refl, refl, h)
  run-run_uncached (ask c next) p h =
      let fresh : Process W = record { world = p.world; caches = λ _. new } in
      let (same, kept, _) = perform-IsBlind c p fresh h (initial-IsCoherent s p.world) refl in
      let (result, world, coherent) =
        run-run_uncached (next (perform s c p).0) (perform s c p).1 kept in
      (
        result ∙ ap (λ r. (run_uncached s (next r.0) r.1).0) same,
        world ∙ ap (λ r. (run_uncached s (next r.0) r.1).1) same,
        coherent,
      )
