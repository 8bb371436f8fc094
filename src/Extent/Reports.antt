-- ===== src/Extent/Reports.antt =====
-- What jemalloc learns from a trampoline, against what the Rust callback answered.
use jevmalloc.Prelude.{ℕ, ◌≡◌, ◌↔◌, refl, Option, none, some, arith}
use jevmalloc.Extent.Hooks.{
  ExtentAlloc, ExtentAllocation, ExtentRange, ExtentHookResult, success, failure, Callback,
  ExtentHooks,
}
use jevmalloc.Extent.Trampolines.{
  to_bool, from_bool, is_failure, refused, invoke, selected, non_null, serve, served, alloc, dalloc,
  range, commit, decommit, purge_lazy, purge_forced, split, merge,
}

module _ {E State : Type 0} (hooks : ExtentHooks E State) where
  -- jemalloc's inverted convention: 0 is reported exactly when a callback is there and succeeded, 1
  -- when it is absent or declined, and an absent callback changes nothing.
  abbrev pub Reports :
      {Request : Type 0}
      → Option (Callback E State Request ExtentHookResult)
      → Request
      → E
      → ℕ × E
      → Type 0
  Reports none request e outcome = outcome ≡ (1, e)
  Reports (some callback) request e (report, e') =
      (e' ≡ (callback hooks.state request e).1)
      × ((report ≡ 0) ↔ ((callback hooks.state request e).0 ≡ success))
      × ((report ≡ 1) ↔ ((callback hooks.state request e).0 ≡ failure))

  invoke-Reports :
      {Request : Type 0} (slot : Option (Callback E State Request ExtentHookResult))
      (request : Request) (e : E)
      → Reports slot request e (invoke hooks slot request e)
  unfolding invoke refused to_bool is_failure
  invoke-Reports none request e = refl
  invoke-Reports (some callback) request e = (refl, ground arith, ground arith)

  -- Each of the seven trampolines with a C boolean result reports the answer of its own callback, to
  -- the request with the arguments in their places.
  pub trampolines-Reports :
      (address size offset length committed arena : ℕ) (e : E)
      → let range_request : ExtentRange = record {
        address = address;
        size = size;
        offset = offset;
        length = length;
        arena = arena;
      } in
        let c = hooks.callbacks in
        Reports c.commit range_request e (commit hooks address size offset length arena e)
        × Reports c.decommit range_request e (decommit hooks address size offset length arena e)
        × Reports c.purge_lazy range_request e (purge_lazy hooks address size offset length arena e)
        × Reports c.purge_forced range_request e
            (purge_forced hooks address size offset length arena e)
        × Reports c.dalloc
            (record {
              address = address;
              size = size;
              committed = from_bool committed;
              arena = arena;
            })
            e
            (dalloc hooks address size committed arena e)
        × Reports c.split
            (record {
              address = address;
              size = size;
              first_size = offset;
              second_size = length;
              committed = from_bool committed;
              arena = arena;
            })
            e
            (split hooks address size offset length committed arena e)
        × Reports c.merge
            (record {
              first_address = address;
              first_size = size;
              second_address = offset;
              second_size = length;
              committed = from_bool committed;
              arena = arena;
            })
            e
            (merge hooks address size offset length committed arena e)
  unfolding commit decommit purge_lazy purge_forced range selected dalloc split merge
  trampolines-Reports address size offset length committed arena e = (
    invoke-Reports hooks.callbacks.commit _ e,
    invoke-Reports hooks.callbacks.decommit _ e,
    invoke-Reports hooks.callbacks.purge_lazy _ e,
    invoke-Reports hooks.callbacks.purge_forced _ e,
    invoke-Reports hooks.callbacks.dalloc _ e,
    invoke-Reports hooks.callbacks.split _ e,
    invoke-Reports hooks.callbacks.merge _ e,
  )

  -- What the allocation trampoline returns and leaves behind the two flag pointers, by what the
  -- callback answered.
  abbrev pub Carries : ℕ → ℕ → Option ExtentAllocation → ℕ × ℕ × ℕ → Type 0
  Carries before_z before_c none outcome = outcome ≡ (0, before_z, before_c)
  Carries before_z before_c (some a) (address, z, c) =
      (address ≡ a.address) × (from_bool z ≡ a.zeroed) × (from_bool c ≡ a.committed)

  abbrev pub Serves :
      ℕ
      → ℕ
      → ExtentAlloc
      → E
      → Option (Callback E State ExtentAlloc (Option ExtentAllocation))
      → (ℕ × ℕ × ℕ) × E
      → Type 0
  Serves before_z before_c request e none outcome = outcome ≡ ((0, before_z, before_c), e)
  Serves before_z before_c request e (some callback) (outcome, e') =
      (e' ≡ (callback hooks.state request e).1)
      × Carries before_z before_c (callback hooks.state request e).0 outcome

  served-Carries :
      (z c : ℕ) (answer : Option ExtentAllocation) → Carries z c answer (served hooks z c answer)
  unfolding served from_bool to_bool
  served-Carries z c none = refl
  served-Carries z c (some a) = (refl, ground arith, ground arith)

  serve-Serves :
      (slot : Option (Callback E State ExtentAlloc (Option ExtentAllocation))) (z c : ℕ)
      (request : ExtentAlloc) (e : E)
      → Serves z c request e slot (serve hooks slot request z c e)
  unfolding serve
  serve-Serves none z c request e = refl
  serve-Serves (some callback) z c request e =
      (refl, served-Carries z c (callback hooks.state request e).0)

  -- The allocation trampoline hands the request over with a null address as "anywhere". A missing
  -- callback and a refusal return null and leave the flags as they were; a mapping comes back
  -- with its address and its own flags.
  pub alloc-Serves :
      (new_address size alignment z c arena : ℕ) (e : E)
      → Serves z c
          (record {
            address = non_null new_address;
            size = size;
            alignment = alignment;
            zeroed = from_bool z;
            committed = from_bool c;
            arena = arena;
          })
          e
          hooks.callbacks.alloc
          (alloc hooks new_address size alignment z c arena e)
  unfolding alloc
  alloc-Serves new_address size alignment z c arena e = serve-Serves hooks.callbacks.alloc z c _ e
