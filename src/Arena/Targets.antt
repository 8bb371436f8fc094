-- ===== src/Arena/Targets.antt =====
-- The arena commands of the crate, one by one: each reaches its own arena, and none panics.

use jevmalloc.Prelude.{ℕ, ◌≤◌, ◌≡◌, ◌≢◌, refl, true, String, codes, arith}
use jevmalloc.System.{System, Process, Outcome, ok, err, panic, Action, bind_ok, bind_err}
use jevmalloc.Ctl.Raw.{mibs, split_count}
use jevmalloc.Ctl.Caching.{IsStable, IsCoherent, key_transparent}
use jevmalloc.Arena.Handle.{Arena, destroy_command}
use jevmalloc.Arena.Controls.{decay, purge, trim, reset}
use jevmalloc.Arena.Commands.{
  command, command-ne-panic, command-caches, command-eq-call, call_of, visible,
}

-- An action of the arena ends as its call does, and does not panic.
abbrev pub Reaches :
    {W : Type 0} → System W → String → Arena → Process W → Action W (Unit {0}) → Type 0
Reaches s name a p action =
    (visible s (action p) ≡ call_of s a p.world (mibs s (codes name) p).0) × ((action p).0 ≢ panic)

module _ {W : Type 0} (s : System W) (st : IsStable s) (nz : s.errno.einval ≢ 0) where
  command-Reaches :
      (name : String) (a : Arena) (p : Process W)
      → 2 ≤ split_count (codes name)
      → IsCoherent s p
      → Reaches s name a p (command s name a)
  command-Reaches name a p deep h =
      (command-eq-call s st nz name a p deep h, command-ne-panic s st nz name a p deep h)

  command-IsCoherent :
      (name : String) (a : Arena) (p : Process W)
      → 2 ≤ split_count (codes name)
      → IsCoherent s p
      → IsCoherent s (command s name a p).1
  command-IsCoherent name a p deep h n =
      rw (command-caches s st nz name a p deep h) ((key_transparent s st name p h).2 n)

  decay-Reaches :
      (a : Arena) (p : Process W) → IsCoherent s p → Reaches s "arena.0.decay" a p (decay s a)
  unfolding decay split_count
  decay-Reaches a p h = command-Reaches "arena.0.decay" a p (omega arith) h

  purge-Reaches :
      (a : Arena) (p : Process W) → IsCoherent s p → Reaches s "arena.0.purge" a p (purge s a)
  unfolding purge split_count
  purge-Reaches a p h = command-Reaches "arena.0.purge" a p (omega arith) h

  reset-Reaches :
      (i : ℕ) (p : Process W)
      → IsCoherent s p
      → let a : Arena = record { index = i; owned = true } in
        Reaches s "arena.0.reset" a p (reset s a)
  unfolding reset split_count
  reset-Reaches i p h =
      command-Reaches "arena.0.reset" (record { index = i; owned = true }) p (omega arith) h

  decay-IsCoherent : (a : Arena) (p : Process W) → IsCoherent s p → IsCoherent s (decay s a p).1
  unfolding decay split_count
  decay-IsCoherent a p h = command-IsCoherent "arena.0.decay" a p (omega arith) h

  trim-ne-panic :
      (a : Arena) (p : Process W)
      → IsCoherent s p
      → (r : Outcome (Unit {0})) → (decay s a p).0 ≡ r
      → (trim s a p).0 ≢ panic
  unfolding trim
  trim-ne-panic a p h (ok _) e =
      rw (bind_ok (decay s a) (λ _. purge s a) p e)
        (purge-Reaches a (decay s a p).1 (decay-IsCoherent a p h)).1
  trim-ne-panic a p h (err x) e = rw (bind_err (decay s a) (λ _. purge s a) p e) (ground arith)
  trim-ne-panic a p h panic e = absurd ((decay-Reaches a p h).1 e)

  -- From a coherent state `decay`, `purge`, `destroy` and, on an owner, `reset` end exactly as one call
  -- with the translated key of their name does, in which the arena's own index replaces the
  -- placeholder 0; where the name has no key they end with its error and make no call. None of
  -- them panics, and neither does `trim`, which decays and then purges.
  pub commands-Reaches :
      (a : Arena) (p : Process W)
      → IsCoherent s p
      → Reaches s "arena.0.decay" a p (decay s a)
        × Reaches s "arena.0.purge" a p (purge s a)
        × Reaches s "arena.0.destroy" a p (destroy_command s a)
        × Reaches s "arena.0.reset"
            (record a { owned = true })
            p
            (reset s (record a { owned = true }))
        × ((trim s a p).0 ≢ panic)
  unfolding destroy_command split_count
  commands-Reaches a p h = (
    decay-Reaches a p h,
    purge-Reaches a p h,
    command-Reaches "arena.0.destroy" a p (omega arith) h,
    reset-Reaches a.index p h,
    trim-ne-panic a p h (decay s a p).0 refl,
  )
