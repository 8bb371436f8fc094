-- ===== src/Thread/Owning.antt =====
-- `ThreadCache` keeps the contract of an owning handle, and what follows for programs.
mod Creation
mod Destruction
use jevmalloc.Prelude.{ℕ, ◌+◌, ◌≤◌, ◌≡◌, refl, true, List, [], arith}
use jevmalloc.System.{System, Process}
use jevmalloc.Ctl.Key.{new}
use jevmalloc.Ctl.Caching.{IsStable, IsCoherent, initial-IsCoherent}
use jevmalloc.Owners.Ledger.{Ledger, nothing_live, nothing, one, count, lesser-Moves, stays}
use jevmalloc.Owners.Interface.{IsOwner}
use jevmalloc.Owners.Programs.{Request, Program, serve_all, owners}
use jevmalloc.Owners.Safety.{serve_all-IsKept}
use jevmalloc.Owners.Audit.{audited, audited-IsStable}
use jevmalloc.Thread.Audit.{Keys, IsTranslated, enter, caches}
use jevmalloc.Thread.Cache.{ThreadCache}
use jevmalloc.Thread.Blindness.Caches.{create-IsBlind, attempted-IsBlind, dropped-IsBlind}
use jevmalloc.Thread.Owning.Creation.{create-Moves}
use jevmalloc.Thread.Owning.Destruction.{try_destroy-Moves, drop-Moves}

module _ {W : Type 0} (s : System W) (st : IsStable s) (k : Keys)
    (translated : IsTranslated s k) where
  abbrev S : System (W × Ledger)
  S = audited s (enter k)

  abbrev ledger : Process (W × Ledger) → Ledger
  ledger p = p.world.1

  stable : IsStable S
  stable = audited-IsStable s (enter k) st

  caches-IsOwner : IsOwner (caches S) ledger (IsCoherent S)
  unfolding caches
  caches-IsOwner = record {
    create_moves = create-Moves s st k translated;
    create_good = λ p h. (create-IsBlind S stable p p h h refl).1;
    borrow_owns_nothing = λ j l. stays l nothing;
    try_destroy_moves = λ c p h. try_destroy-Moves s st k translated c.index c.owned p h;
    try_destroy_good = λ c p h. (attempted-IsBlind S stable c p p h h refl).1;
    drop_moves = λ c p h. drop-Moves s st k translated c.index c.owned p h;
    drop_good = λ c p h. (dropped-IsBlind S stable c p p h h refl).1;
    into_index_moves = tt;
    from_owned_index_moves =
        λ j l. lesser-Moves l l (one j) (one j) nothing (λ i. omega arith) (stays l (one j));
  }

  abbrev pub start : W → Program (Process (W × Ledger)) ThreadCache
  start w = record {
    process = record { world = (w, nothing_live); caches = λ _. new };
    held = [];
    released = [];
  }

  -- Where names are translated as documented, and the names of creation, flush and destruction have
  -- keys, those of creation and destruction different ones: however a program that starts without
  -- caches creates, destroys and drops them, with any number of handles at once, every request to
  -- destroy a cache names one that was created and has not been destroyed since; and each cache is
  -- owned at most as often as it is live.
  pub programs_own_live_caches :
      (w : W) (requests : List Request)
      → (let final = serve_all (caches S) (start w) requests in
          (final.process.world.1.honoured ≡ true)
          × ((i : ℕ)
              → owners (caches S) final.held i + count i final.released
                ≤ count i final.process.world.1.live))
  programs_own_live_caches w requests =
      (serve_all-IsKept (caches S) ledger (IsCoherent S) caches-IsOwner (start w) requests
        (initial-IsCoherent S (w, nothing_live), (refl, λ i. omega arith))).1
