-- ===== src/Arena/Owning/Destruction.antt =====
-- Destroying and dropping an arena, against the ledger.
use mathlib.Core.Path.{subst}
use jevmalloc.Prelude.{
  ℕ, ◌≤◌, ◌≡◌, ◌≢◌, ◌∙◌, sym, ap, Bool, Option, true, false, none, [], ◌∷◌, ◌==◌, if◌then◌else◌,
  codes, arith,
}
use jevmalloc.System.{System, Process, Reply, Outcome, ok, err, panic}
use jevmalloc.Ctl.Error.{into_result, invalid_argument, from_code}
use jevmalloc.Ctl.Raw.{split_count}
use jevmalloc.Ctl.Caching.{IsStable, IsCoherent}
use jevmalloc.Ctl.Queries.{seen}
use jevmalloc.Owners.Ledger.{
  Ledger, Moves, nothing, one, enter_destroy, enter_destroy-Moves, lesser-Moves, stays,
}
use jevmalloc.Owners.Interface.{weight, weight_of}
use jevmalloc.Owners.Audit.{audited, audited-IsStable, plain, mibs-audited}
use jevmalloc.Arena.Audit.{Keys, IsTranslated, enter, given_back, arenas}
use jevmalloc.Arena.Handle.{Arena, Attempt, destroy_command, drop, destroy}
use jevmalloc.Arena.Commands.{command-eq-call, call_of}
use jevmalloc.Arena.Blindness.Destruction.{
  attempt, owned_attempt_lem, refused_attempt_lem, attempted,
}

abbrev given : Outcome Attempt → Option Arena
given (ok t) = given_back t
given (err e) = none
given panic = none

module _ {W : Type 0} (s : System W) (st : IsStable s) (nz : s.errno.einval ≢ 0) (k : Keys)
    (translated : IsTranslated s k) where
  abbrev S : System (W × Ledger)
  S = audited s (enter k)

  abbrev ledger : Process (W × Ledger) → Ledger
  ledger p = p.world.1

  stable : IsStable S
  stable = audited-IsStable s (enter k) st

  abbrev destroy_call : Arena → W × Ledger → Reply × (W × Ledger)
  destroy_call a = S.mallctlbymib (k.destroy_0 ∷ a.index ∷ k.destroy_2 ∷ []) none none

  -- What a request to destroy an arena shows: one call of its key.
  destroy-seen :
      (a : Arena) (p : Process (W × Ledger))
      → IsCoherent S p
      → seen (destroy_command S a p)
        ≡ (into_result (destroy_call a p.world).0.status, (destroy_call a p.world).1)
  unfolding destroy_command split_count audited
  destroy-seen a p h =
      command-eq-call S stable nz "arena.0.destroy" a p (omega arith) h
      ∙ ap (call_of S a p.world) (
          mibs-audited s (enter k) (codes "arena.0.destroy") p
          ∙ translated.destroy_key (plain s (enter k) p))

  destroyed_ledger :
      (a : Arena) (w : W × Ledger)
      → (destroy_call a w).1.1 ≡ enter_destroy (destroy_call a w).0.status a.index w.1
  unfolding audited enter
  destroyed_ledger a w = ground arith

  -- The handle that is left when a request to destroy an owned arena has ended.
  abbrev left : Arena → Outcome (Unit {0}) → ℕ → ℕ
  left a r = weight_of (arenas S) (given (attempt a r))

  left_weight :
      (j status i : ℕ)
      → left (record { index = j; owned = true }) (into_result status) i
        ≤ (if status == 0 then nothing else one j) i
  unfolding arenas into_result from_code
  left_weight j status i = ground arith

  destruction-Moves :
      (j : ℕ) (p : Process (W × Ledger))
      → IsCoherent S p
      → (let a : Arena = record { index = j; owned = true } in
          Moves
            (ledger p)
            (one j)
            (ledger (destroy_command S a p).1)
            (left a (destroy_command S a p).0))
  destruction-Moves j p h =
      let a : Arena = record { index = j; owned = true } in
      let reply = destroy_call a p.world in
      subst (λ x. Moves (ledger p) (one j) x.1.1 (left a x.0)) (sym (destroy-seen a p h))
        (subst (λ l. Moves (ledger p) (one j) l (left a (into_result reply.0.status)))
          (sym (destroyed_ledger a p.world))
          (lesser-Moves (ledger p) (enter_destroy reply.0.status j (ledger p)) (one j) _ _
            (left_weight j reply.0.status) (enter_destroy-Moves reply.0.status j (ledger p))))

  unowned_weight :
      (j : ℕ) (r : Outcome (Unit {0})) (i : ℕ)
      → left (record { index = j; owned = false }) r i ≤ nothing i
  unfolding arenas
  unowned_weight j (ok _) i = omega arith
  unowned_weight j (err e) i = omega arith
  unowned_weight j panic i = omega arith

  pub try_destroy-Moves :
      (j : ℕ) (owned : Bool) (p : Process (W × Ledger))
      → IsCoherent S p
      → (let a : Arena = record { index = j; owned = owned } in
          Moves
            (ledger p)
            (weight (arenas S) a)
            (ledger (attempted S a p).1)
            (weight_of (arenas S) (given (attempted S a p).0)))
  unfolding arenas
  try_destroy-Moves j true p h =
      let a : Arena = record { index = j; owned = true } in
      subst (λ x. Moves (ledger p) (one j) (ledger x.1) (weight_of (arenas S) (given x.0)))
        (owned_attempt_lem S j p) (destruction-Moves j p h)
  try_destroy-Moves j false p h =
      let a : Arena = record { index = j; owned = false } in
      subst (λ x. Moves (ledger p) nothing (ledger x.1) (weight_of (arenas S) (given x.0)))
        (refused_attempt_lem S j p)
        (lesser-Moves (ledger p) (ledger p) nothing nothing _
          (unowned_weight j (invalid_argument S.errno)) (stays (ledger p) nothing))

  pub drop-Moves :
      (j : ℕ) (owned : Bool) (p : Process (W × Ledger))
      → IsCoherent S p
      → (let a : Arena = record { index = j; owned = owned } in
          Moves (ledger p) (weight (arenas S) a) (ledger (drop S a p)) nothing)
  unfolding arenas drop destroy
  drop-Moves j true p h =
      let a : Arena = record { index = j; owned = true } in
      lesser-Moves (ledger p) (ledger (destroy_command S a p).1) (one j) _ nothing
        (λ i. omega arith) (destruction-Moves j p h)
  drop-Moves j false p h = stays (ledger p) nothing
