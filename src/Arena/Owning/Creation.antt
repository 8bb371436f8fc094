-- ===== src/Arena/Owning/Creation.antt =====
-- Creating an arena, against the ledger.
use mathlib.Core.Path.{subst}
use jevmalloc.Prelude.{
  ℕ, ◌≤◌, ◌≡◌, ◌∙◌, sym, ap, none, some, [], ◌∷◌, ◌==◌, if◌then◌else◌, codes, arith,
}
use jevmalloc.System.{System, Process, Reply, lift, ◌>>=◌}
use jevmalloc.Ctl.Error.{invalid_argument, from_code}
use jevmalloc.Ctl.Raw.{get}
use jevmalloc.Ctl.Caching.{IsStable, IsCoherent}
use jevmalloc.Ctl.Queries.{
  seen, converted, meaning, read_at, on_key, get-seen, converted-seen, lookup-seen,
}
use jevmalloc.Owners.Ledger.{Ledger, Moves, nothing, one, enter_create}
use jevmalloc.Owners.Interface.{weight_of}
use jevmalloc.Owners.Audit.{audited, audited-IsStable, plain, mibs-audited, creation-Moves}
use jevmalloc.Arena.Index.{uint_bytes, usize_try_from, validated_index, uint_try_from}
use jevmalloc.Arena.Audit.{Keys, IsTranslated, enter, returned, arenas}
use jevmalloc.Arena.Handle.{from_created_index, create}

module _ {W : Type 0} (s : System W) (st : IsStable s) (k : Keys)
    (translated : IsTranslated s k) where
  abbrev S : System (W × Ledger)
  S = audited s (enter k)

  abbrev ledger : Process (W × Ledger) → Ledger
  ledger p = p.world.1

  stable : IsStable S
  stable = audited-IsStable s (enter k) st

  -- What a creation shows: one read of its key, checked.
  create-seen :
      (p : Process (W × Ledger))
      → IsCoherent S p
      → seen (create S p)
        ≡ converted
            (from_created_index S)
            (read_at S uint_bytes (k.create_0 ∷ k.create_1 ∷ []) p.world)
  unfolding create
  create-seen p h =
      lookup-seen S stable "arenas.create"
        (λ key. get S uint_bytes key >>= λ index. lift (from_created_index S index))
        (λ key w. converted (from_created_index S) (read_at S uint_bytes key w)) p h
        (λ key q.
          converted-seen S (get S uint_bytes key) (from_created_index S) q
          ∙ ap (converted (from_created_index S)) (get-seen S uint_bytes key q (omega arith)))
      ∙ ap
          (on_key S (λ key w. converted (from_created_index S) (read_at S uint_bytes key w))
            p.world)
          (mibs-audited s (enter k) (codes "arenas.create") p
            ∙ translated.create_key (plain s (enter k) p))

  created_ledger :
      (p : Process (W × Ledger))
      → (let reply =
            S.mallctlbymib (k.create_0 ∷ k.create_1 ∷ []) (some (none, uint_bytes)) none p.world in
          reply.1.1 ≡ enter_create reply.0.status reply.0.value (ledger p))
  unfolding audited enter
  created_ledger p = ground arith

  created_weight :
      (r : Reply) (i : ℕ) (w : W × Ledger)
      → weight_of
          (arenas S)
          (returned (converted (from_created_index S) (meaning uint_bytes r, w)).0)
          i
        ≤ (if r.status == 0 then one r.value else nothing) i
  unfolding arenas from_created_index usize_try_from validated_index uint_try_from invalid_argument
      from_code
  created_weight r i w = ground arith

  pub create-Moves :
      (p : Process (W × Ledger))
      → IsCoherent S p
      → Moves
          (ledger p)
          nothing
          (ledger (create S p).1)
          (weight_of (arenas S) (returned (create S p).0))
  create-Moves p h =
      let reply =
        S.mallctlbymib (k.create_0 ∷ k.create_1 ∷ []) (some (none, uint_bytes)) none p.world in
      subst (λ x. Moves (ledger p) nothing x.1.1 (weight_of (arenas S) (returned x.0)))
        (sym (create-seen p h))
        (creation-Moves (from_created_index S) uint_bytes (λ o. weight_of (arenas S) (returned o))
          reply.0 reply.1 (ledger p) (created_ledger p) (λ i. created_weight reply.0 i reply.1))
