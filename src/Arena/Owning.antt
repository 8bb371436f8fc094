-- ===== src/Arena/Owning.antt =====
-- `Arena` keeps the contract of an owning handle, and what follows for programs.
mod Creation
mod Destruction
use mathlib.Core.Path.{subst}
use jevmalloc.Prelude.{
  ℕ, ◌+◌, ◌≤◌, ◌≡◌, ◌≢◌, ◌∙◌, refl, sym, ap, Bool, Option, true, false, none, some, List, [], ◌∷◌,
  ◌&&◌, ◌==◌, if◌then◌else◌, codes, arith,
}
use jevmalloc.System.{System, Process, Reply, Outcome, ok, err, panic, lift, ◌>>=◌}
use jevmalloc.Ctl.Error.{into_result, invalid_argument, from_code}
use jevmalloc.Ctl.Raw.{Key, mibs, get, split_count}
use jevmalloc.Ctl.Key.{key}
use jevmalloc.Ctl.Key.{new}
use jevmalloc.Ctl.Caching.{IsStable, IsCoherent, initial-IsCoherent}
use jevmalloc.Ctl.Blindness.{IsBlind}
use jevmalloc.Ctl.Queries.{
  seen, converted, meaning, read_at, on_key, get-seen, converted-seen, lookup-seen,
}
use jevmalloc.Owners.Ledger.{
  Ledger, nothing_live, Moves, Backs, nothing, one, enter_create, enter_destroy, enter_create-Moves,
  enter_destroy-Moves, count, lesser, lesser-Moves, stays,
}
use jevmalloc.Owners.Interface.{Operations, IsOwner, weight, weight_of}
use jevmalloc.Owners.Programs.{Request, Program, serve_all, owners}
use jevmalloc.Owners.Safety.{serve_all-IsKept}
use jevmalloc.Owners.Audit.{audited, audited-IsStable, plain, mibs-audited}
use jevmalloc.Arena.Index.{uint_bytes, usize_try_from, validated_index, uint_try_from}
use jevmalloc.Arena.Audit.{Keys, IsTranslated, enter, returned, given_back, arenas}
use jevmalloc.Arena.Handle.{
  Arena, Attempt, from_created_index, create, from_index, from_owned_index, destroy_command,
  try_destroy, drop, into_index, destroy, finish_destroy, disarm,
}
use jevmalloc.Arena.Owning.Creation.{create-Moves}
use jevmalloc.Arena.Owning.Destruction.{try_destroy-Moves, drop-Moves}
use jevmalloc.Arena.Commands.{command-eq-call, call_of}
use jevmalloc.Arena.Blindness.{create-IsBlind}
use jevmalloc.Arena.Blindness.Destruction.{
  attempt, owned_attempt_lem, refused_attempt_lem, attempted, attempted-IsBlind, dropped,
  dropped-IsBlind,
}

module _ {W : Type 0} (s : System W) (st : IsStable s) (nz : s.errno.einval ≢ 0) (k : Keys)
    (translated : IsTranslated s k) where
  abbrev S : System (W × Ledger)
  S = audited s (enter k)

  abbrev ledger : Process (W × Ledger) → Ledger
  ledger p = p.world.1

  stable : IsStable S
  stable = audited-IsStable s (enter k) st

  borrowed_weight : (j i : ℕ) → weight_of (arenas S) (returned (from_index S j)) i ≤ nothing i
  unfolding arenas from_index validated_index uint_try_from invalid_argument from_code
  borrowed_weight j i = ground arith

  reclaimed_weight : (j i : ℕ) → weight_of (arenas S) (returned (from_owned_index S j)) i ≤ one j i
  unfolding arenas from_owned_index validated_index uint_try_from invalid_argument from_code
  reclaimed_weight j i = ground arith

  arenas-IsOwner : IsOwner (arenas S) ledger (IsCoherent S)
  unfolding arenas into_index drop
  arenas-IsOwner = record {
    create_moves = create-Moves s st k translated;
    create_good = λ p h. (create-IsBlind S stable p p h h refl).1;
    borrow_owns_nothing =
        λ j l. lesser-Moves l l nothing nothing _ (borrowed_weight j) (stays l nothing);
    try_destroy_moves = λ a p h. try_destroy-Moves s st nz k translated a.index a.owned p h;
    try_destroy_good = λ a p h. (attempted-IsBlind S stable a p p h h refl).1;
    drop_moves = λ a p h. drop-Moves s st nz k translated a.index a.owned p h;
    drop_good = λ a p h. (dropped-IsBlind S stable a p p h h refl).1;
    into_index_moves = λ a p h. (stays (ledger p) (weight (arenas S) a), h);
    from_owned_index_moves =
        λ j l. lesser-Moves l l (one j) (one j) _ (reclaimed_weight j) (stays l (one j));
  }

  abbrev pub start : W → Program (Process (W × Ledger)) Arena
  start w = record {
    process = record { world = (w, nothing_live); caches = λ _. new };
    held = [];
    released = [];
  }

  -- Where names are translated as documented, the names of creation and destruction have keys, and
  -- `EINVAL` is not zero: however a program that starts without arenas creates, borrows, destroys,
  -- drops, gives up and reclaims arenas, with any number of handles at once, every request to
  -- destroy an arena names one that was created and has not been destroyed since; and each arena is
  -- owned, by a handle or by an index that an owner was turned into, at most as often as it is
  -- live.
  pub programs_own_live_arenas :
      (w : W) (requests : List Request)
      → (let final = serve_all (arenas S) (start w) requests in
          (final.process.world.1.honoured ≡ true)
          × ((i : ℕ)
              → owners (arenas S) final.held i + count i final.released
                ≤ count i final.process.world.1.live))
  programs_own_live_arenas w requests =
      (serve_all-IsKept (arenas S) ledger (IsCoherent S) arenas-IsOwner (start w) requests
        (initial-IsCoherent S (w, nothing_live), (refl, λ i. omega arith))).1
