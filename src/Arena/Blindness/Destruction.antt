-- ===== src/Arena/Blindness/Destruction.antt =====
-- The end of the handle of an arena is blind to the key caches.
use jevmalloc.Prelude.{ℕ, ◌≡◌, Bool, true, false, arith}
use jevmalloc.System.{System, Process, Outcome, ok, err, panic, Action, lift}
use jevmalloc.Ctl.Caching.{IsStable}
use jevmalloc.Ctl.Error.{invalid_argument}
use jevmalloc.Ctl.Blindness.{IsBlind, lift-IsBlind, ended-IsBlind, same-IsBlind}
use jevmalloc.Arena.Handle.{
  Arena, Attempt, destroyed, failed, panicked, destroy_command, destroy, drop, finish_destroy,
  try_destroy, disarm,
}
use jevmalloc.Arena.Blindness.{command-IsBlind}

-- What the command leaves of an attempt to destroy an arena.
abbrev pub attempt : Arena → Outcome (Unit {0}) → Outcome Attempt
attempt a (ok _) = ok destroyed
attempt a (err e) = ok (failed (record { error = e; arena = a }))
attempt a panic = ok panicked

module _ {W : Type 0} (s : System W) where
  -- `try_destroy` and `drop` as actions.
  abbrev pub attempted : Arena → Action W Attempt
  attempted a p = let (t, p') = try_destroy s a p in (ok t, p')

  abbrev pub dropped : Arena → Action W (Unit {0})
  dropped a p = (ok tt, drop s a p)

  pub owned_attempt_lem :
      (i : ℕ) (p : Process W)
      → (let a : Arena = record { index = i; owned = true } in
          (attempt a (destroy_command s a p).0, (destroy_command s a p).1) ≡ attempted a p)
  unfolding try_destroy finish_destroy destroy disarm drop
  owned_attempt_lem i p = ground arith

  pub refused_attempt_lem :
      (i : ℕ) (p : Process W)
      → (let a : Arena = record { index = i; owned = false } in
          (attempt a (invalid_argument s.errno), p) ≡ attempted a p)
  unfolding try_destroy finish_destroy destroy invalid_argument disarm drop
  refused_attempt_lem i p = ground arith

  module _ (st : IsStable s) where
    destroy_command-IsBlind : (a : Arena) → IsBlind s (destroy_command s a)
    unfolding destroy_command
    destroy_command-IsBlind a = command-IsBlind s st "arena.0.destroy" a

    attempt_by_owner :
        (i : ℕ) (owned : Bool) → IsBlind s (attempted (record { index = i; owned = owned }))
    attempt_by_owner i true =
        let a : Arena = record { index = i; owned = true } in
        same-IsBlind s (λ p. (attempt a (destroy_command s a p).0, (destroy_command s a p).1))
          (attempted a) (owned_attempt_lem i)
          (ended-IsBlind s (destroy_command s a) (attempt a) (destroy_command-IsBlind a))
    attempt_by_owner i false =
        let a : Arena = record { index = i; owned = false } in
        same-IsBlind s (lift (attempt a (invalid_argument s.errno))) (attempted a)
          (refused_attempt_lem i) (lift-IsBlind s (attempt a (invalid_argument s.errno)))

    pub attempted-IsBlind : (a : Arena) → IsBlind s (attempted a)
    attempted-IsBlind a = attempt_by_owner a.index a.owned

    drop_by_owner :
        (i : ℕ) (owned : Bool) → IsBlind s (dropped (record { index = i; owned = owned }))
    unfolding drop destroy
    drop_by_owner i true =
        let a : Arena = record { index = i; owned = true } in
        ended-IsBlind s (destroy_command s a) (λ _. ok tt) (destroy_command-IsBlind a)
    drop_by_owner i false = lift-IsBlind s (ok tt)

    pub dropped-IsBlind : (a : Arena) → IsBlind s (dropped a)
    dropped-IsBlind a = drop_by_owner a.index a.owned
