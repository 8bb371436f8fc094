-- ===== src/Thread/Owning/Creation.antt =====
-- Creating a thread cache, against the ledger.
use mathlib.Core.Path.{subst}
use jevmalloc.Prelude.{
  ℕ, true, ◌≤◌, ◌≡◌, ◌∙◌, sym, ap, none, some, [], ◌∷◌, ◌==◌, if◌then◌else◌, codes, arith,
}
use jevmalloc.System.{System, Process, Reply, Outcome, ok, err, panic, Action, pure, lift, ◌>>=◌}
use jevmalloc.Ctl.Error.{invalid_argument, from_code}
use jevmalloc.Ctl.Raw.{Key, get}
use jevmalloc.Ctl.Key.{key}
use jevmalloc.Ctl.Caching.{IsStable, IsCoherent}
use jevmalloc.Ctl.Queries.{
  seen, converted, meaning, read_at, get-seen, converted-seen, after_key-seen,
}
use jevmalloc.Owners.Ledger.{Ledger, Moves, nothing, one, enter_create}
use jevmalloc.Owners.Interface.{weight_of}
use jevmalloc.Owners.Audit.{audited, audited-IsStable, plain, mibs-audited, creation-Moves}
use jevmalloc.Arena.Index.{uint_bytes, usize_try_from, uint_try_from}
use jevmalloc.Arena.Audit.{returned}
use jevmalloc.Thread.Audit.{Keys, IsTranslated, enter, caches}
use jevmalloc.Thread.Cache.{ThreadCache, create, validated_index}

module _ {W : Type 0} (s : System W) (st : IsStable s) (k : Keys)
    (translated : IsTranslated s k) where
  abbrev S : System (W × Ledger)
  S = audited s (enter k)

  abbrev ledger : Process (W × Ledger) → Ledger
  ledger p = p.world.1

  stable : IsStable S
  stable = audited-IsStable s (enter k) st

  -- What a new cache is made of.
  abbrev made : ℕ → Outcome ThreadCache
  made value = elim (usize_try_from S value) [
    | ok index ↦ elim (validated_index S index) [
      | ok _ ↦ ok (record { index = index; owned = true })
      | err e ↦ err e
      | panic ↦ panic
    ]
    | err e ↦ err e
    | panic ↦ panic
  ]

  abbrev finish : ℕ → Action (W × Ledger) ThreadCache
  finish value = lift (usize_try_from S value) >>= λ index.
      lift (validated_index S index) >>= λ _. pure (record { index = index; owned = true })

  finish_lem : (value : ℕ) (p : Process (W × Ledger)) → finish value p ≡ (made value, p)
  finish_lem value p = ground arith

  abbrev create_key : Key
  create_key = k.create_0 ∷ k.create_1 ∷ []

  abbrev destroy_key : Key
  destroy_key = k.destroy_0 ∷ k.destroy_1 ∷ []

  -- The rest of a creation, behind each of its three keys.
  abbrev behind_destroy : Key → Action (W × Ledger) ThreadCache
  behind_destroy create_key = get S uint_bytes create_key >>= finish

  abbrev behind_flush : Key → Action (W × Ledger) ThreadCache
  behind_flush create_key = key S "tcache.destroy" >>= λ _. behind_destroy create_key

  abbrev behind_create : Key → Action (W × Ledger) ThreadCache
  behind_create create_key = key S "tcache.flush" >>= λ _. behind_flush create_key

  read-seen :
      (q : Process (W × Ledger))
      → seen ((get S uint_bytes create_key >>= finish) q)
        ≡ converted made (read_at S uint_bytes create_key q.world)
  read-seen q =
      (λ i. seen ((get S uint_bytes create_key >>= λ v p. finish_lem v p i) q))
      ∙ converted-seen S (get S uint_bytes create_key) made q
      ∙ ap (converted made) (get-seen S uint_bytes create_key q (omega arith))

  -- The keys are translated, and the first of them is read once.
  create-seen :
      (p : Process (W × Ledger))
      → IsCoherent S p
      → seen (create S p) ≡ converted made (read_at S uint_bytes create_key p.world)
  unfolding create
  create-seen p h =
      let read : W × Ledger → Outcome ThreadCache × (W × Ledger) =
        λ w. converted made (read_at S uint_bytes create_key w) in
      after_key-seen S stable "tcache.create" create_key behind_create p read h
        (mibs-audited s (enter k) (codes "tcache.create") p
          ∙ translated.create_key (plain s (enter k) p))
        λ q hq.
          after_key-seen S stable "tcache.flush" k.flush (λ _. behind_flush create_key) q read hq
            (mibs-audited s (enter k) (codes "tcache.flush") q
              ∙ translated.flush_key (plain s (enter k) q))
            λ r hr.
              after_key-seen S stable "tcache.destroy" destroy_key (λ _. behind_destroy create_key)
                r read hr
                (mibs-audited s (enter k) (codes "tcache.destroy") r
                  ∙ translated.destroy_key (plain s (enter k) r))
                λ t ht. read-seen t

  created_ledger :
      (w : W × Ledger)
      → (let reply = S.mallctlbymib create_key (some (none, uint_bytes)) none w in
          reply.1.1 ≡ enter_create reply.0.status reply.0.value w.1)
  unfolding audited enter
  created_ledger w = ground arith

  created_weight :
      (r : Reply) (i : ℕ) (w : W × Ledger)
      → weight_of (caches S) (returned (converted made (meaning uint_bytes r, w)).0) i
        ≤ (if r.status == 0 then one r.value else nothing) i
  unfolding caches usize_try_from validated_index uint_try_from invalid_argument from_code
  created_weight r i w = ground arith

  pub create-Moves :
      (p : Process (W × Ledger))
      → IsCoherent S p
      → Moves
          (ledger p)
          nothing
          (ledger (create S p).1)
          (weight_of (caches S) (returned (create S p).0))
  create-Moves p h =
      let reply = S.mallctlbymib create_key (some (none, uint_bytes)) none p.world in
      subst (λ x. Moves (ledger p) nothing x.1.1 (weight_of (caches S) (returned x.0)))
        (sym (create-seen p h))
        (creation-Moves made uint_bytes (λ o. weight_of (caches S) (returned o)) reply.0 reply.1
          (ledger p) (created_ledger p.world) (λ i. created_weight reply.0 i reply.1))
