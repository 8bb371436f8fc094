-- ===== src/Thread/Owning/Destruction.antt =====
-- Destroying and dropping a thread cache, against the ledger.
use mathlib.Core.Path.{subst}
use jevmalloc.Prelude.{
  ℕ, ◌≤◌, ◌≡◌, ◌∙◌, refl, sym, Bool, true, false, Option, none, some, [], ◌∷◌, ◌==◌, if◌then◌else◌,
  codes, arith,
}
use jevmalloc.System.{System, Process, Reply, Outcome, ok, err, panic, lift, ◌>>=◌}
use jevmalloc.Ctl.Error.{into_result, invalid_argument, from_code}
use jevmalloc.Ctl.Raw
use jevmalloc.Ctl.Raw.{Key, mibs}
use jevmalloc.Ctl.Caching.{IsStable, IsCoherent}
use jevmalloc.Ctl.Queries.{seen, after_key-seen}
use jevmalloc.Owners.Ledger.{
  Ledger, Moves, nothing, one, enter_destroy, enter_destroy-Moves, lesser-Moves, stays,
}
use jevmalloc.Owners.Interface.{weight, weight_of}
use jevmalloc.Owners.Audit.{audited, audited-IsStable, plain, mibs-audited}
use jevmalloc.Arena.Index.{uint_bytes, uint_try_from}
use jevmalloc.Thread.Audit.{Keys, IsTranslated, enter, caches, given_back}
use jevmalloc.Thread.Cache.{ThreadCache, Attempt, validated_index, destroy_command, drop, destroy}
use jevmalloc.Thread.Blindness.Caches.{attempt, owned_attempt_lem, refused_attempt_lem, attempted}

abbrev given : Outcome Attempt → Option ThreadCache
given (ok t) = given_back t
given (err e) = none
given panic = none

module _ {W : Type 0} (s : System W) (st : IsStable s) (k : Keys)
    (translated : IsTranslated s k) where
  abbrev S : System (W × Ledger)
  S = audited s (enter k)

  abbrev ledger : Process (W × Ledger) → Ledger
  ledger p = p.world.1

  stable : IsStable S
  stable = audited-IsStable s (enter k) st

  abbrev destroy_key : Key
  destroy_key = k.destroy_0 ∷ k.destroy_1 ∷ []

  abbrev destroy_call : ℕ → W × Ledger → Reply × (W × Ledger)
  destroy_call i = S.mallctlbymib destroy_key none (some (i, uint_bytes))

  -- A request to destroy, by how the identifier is validated: only a valid one is sent.
  abbrev sent : Outcome ℕ → W × Ledger → Outcome (Unit {0}) × (W × Ledger)
  sent (ok i) w = (into_result (destroy_call i w).0.status, (destroy_call i w).1)
  sent (err e) w = (err e, w)
  sent panic w = (panic, w)

  sent-seen :
      (v : Outcome ℕ) (q : Process (W × Ledger))
      → seen ((lift v >>= λ i. Raw.set S uint_bytes destroy_key i) q) ≡ sent v q.world
  unfolding Raw.set
  sent-seen (ok i) q = refl
  sent-seen (err e) q = refl
  sent-seen panic q = refl

  destroy-seen :
      (c : ThreadCache) (p : Process (W × Ledger))
      → IsCoherent S p
      → seen (destroy_command S c p) ≡ sent (validated_index S c.index) p.world
  unfolding destroy_command
  destroy-seen c p h =
      after_key-seen S stable "tcache.destroy" destroy_key
        (λ key. lift (validated_index S c.index) >>= λ i. Raw.set S uint_bytes key i) p
        (sent (validated_index S c.index)) h
        (mibs-audited s (enter k) (codes "tcache.destroy") p
          ∙ translated.destroy_key (plain s (enter k) p))
        λ q hq. sent-seen (validated_index S c.index) q

  destroyed_ledger :
      (i : ℕ) (w : W × Ledger)
      → (destroy_call i w).1.1 ≡ enter_destroy (destroy_call i w).0.status i w.1
  unfolding audited enter
  destroyed_ledger i w = ground (arith, translated.distinct)

  -- The handle that is left when a request to destroy an owned cache has ended.
  abbrev left : ℕ → Outcome (Unit {0}) → ℕ → ℕ
  left j r = weight_of (caches S) (given (attempt (record { index = j; owned = true }) r))

  left_weight :
      (j status i : ℕ) → left j (into_result status) i ≤ (if status == 0 then nothing else one j) i
  unfolding caches into_result from_code
  left_weight j status i = ground arith

  validated_lem : (i j : ℕ) → ok i ≡ validated_index S j → i ≡ j
  unfolding validated_index uint_try_from invalid_argument from_code
  validated_lem i j e = ground arith

  sent-Moves :
      (j : ℕ) (w : W × Ledger) (v : Outcome ℕ)
      → v ≡ validated_index S j
      → Moves w.1 (one j) (sent v w).1.1 (left j (sent v w).0)
  unfolding caches
  sent-Moves j w (ok i) e = rw (validated_lem i j e) (
      subst (λ l. Moves w.1 (one j) l (left j (into_result (destroy_call j w).0.status)))
        (sym (destroyed_ledger j w))
        (lesser-Moves w.1 (enter_destroy (destroy_call j w).0.status j w.1) (one j) _ _
          (left_weight j (destroy_call j w).0.status)
          (enter_destroy-Moves (destroy_call j w).0.status j w.1)))
  sent-Moves j w (err x) e = stays w.1 (one j)
  sent-Moves j w panic e =
      lesser-Moves w.1 w.1 (one j) (one j) _ (λ i. omega arith) (stays w.1 (one j))

  destruction-Moves :
      (j : ℕ) (p : Process (W × Ledger))
      → IsCoherent S p
      → (let c : ThreadCache = record { index = j; owned = true } in
          Moves
            (ledger p)
            (one j)
            (ledger (destroy_command S c p).1)
            (left j (destroy_command S c p).0))
  destruction-Moves j p h =
      subst (λ x. Moves (ledger p) (one j) x.1.1 (left j x.0))
        (sym (destroy-seen (record { index = j; owned = true }) p h))
        (sent-Moves j p.world (validated_index S j) refl)

  unowned_weight :
      (j : ℕ) (r : Outcome (Unit {0})) (i : ℕ)
      → weight_of (caches S) (given (attempt (record { index = j; owned = false }) r)) i ≤ nothing i
  unfolding caches
  unowned_weight j (ok _) i = omega arith
  unowned_weight j (err e) i = omega arith
  unowned_weight j panic i = omega arith

  pub try_destroy-Moves :
      (j : ℕ) (owned : Bool) (p : Process (W × Ledger))
      → IsCoherent S p
      → (let c : ThreadCache = record { index = j; owned = owned } in
          Moves
            (ledger p)
            (weight (caches S) c)
            (ledger (attempted S c p).1)
            (weight_of (caches S) (given (attempted S c p).0)))
  unfolding caches
  try_destroy-Moves j true p h =
      let c : ThreadCache = record { index = j; owned = true } in
      subst (λ x. Moves (ledger p) (one j) (ledger x.1) (weight_of (caches S) (given x.0)))
        (owned_attempt_lem S j p) (destruction-Moves j p h)
  try_destroy-Moves j false p h =
      let c : ThreadCache = record { index = j; owned = false } in
      subst (λ x. Moves (ledger p) nothing (ledger x.1) (weight_of (caches S) (given x.0)))
        (refused_attempt_lem S j p)
        (lesser-Moves (ledger p) (ledger p) nothing nothing _
          (unowned_weight j (invalid_argument S.errno)) (stays (ledger p) nothing))

  pub drop-Moves :
      (j : ℕ) (owned : Bool) (p : Process (W × Ledger))
      → IsCoherent S p
      → (let c : ThreadCache = record { index = j; owned = owned } in
          Moves (ledger p) (weight (caches S) c) (ledger (drop S c p)) nothing)
  unfolding caches drop destroy
  drop-Moves j true p h =
      let c : ThreadCache = record { index = j; owned = true } in
      lesser-Moves (ledger p) (ledger (destroy_command S c p).1) (one j) _ nothing
        (λ i. omega arith) (destruction-Moves j p h)
  drop-Moves j false p h = stays (ledger p) nothing
