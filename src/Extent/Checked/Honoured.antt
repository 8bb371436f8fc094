-- ===== src/Extent/Checked/Honoured.antt =====
-- In a debug build jemalloc only gets mappings that honour its request.
use jevmalloc.Prelude.{
  ℕ, ◌≡◌, ◌⊎◌, inl, inr, refl, true, false, ap, Bool-cases, Option, none, some, arith,
}
use jevmalloc.Extent.Hooks.{ExtentAlloc, ExtentAllocation, Callback, ExtentHooks}
use jevmalloc.Extent.Trampolines.{from_bool, to_bool, non_null, served, serve, alloc}
use jevmalloc.Extent.Checked.{
  is_none_or_at, is_honoured, checked_served, checked_serve, checked_alloc,
}

-- What an answer to jemalloc owes to its request: null, or the wanted address if there was one, and
-- zeroed and committed memory where that was asked for.
abbrev pub IsHonest : ℕ → ℕ → ℕ → Option (ℕ × ℕ × ℕ) → Type 0
IsHonest new_address z c none = Unit
IsHonest new_address z c (some (address, z', c')) =
    (address ≡ 0)
    ⊎ (((new_address ≡ 0) ⊎ (address ≡ new_address))
        × ((from_bool z ≡ false) ⊎ (from_bool z' ≡ true))
        × ((from_bool c ≡ false) ⊎ (from_bool c' ≡ true)))

-- A request as `alloc` builds it from the arguments of jemalloc.
abbrev pub request_for : ℕ → ℕ → ℕ → ℕ → ℕ → ℕ → ExtentAlloc
request_for new_address size alignment z c arena = record {
  address = non_null new_address;
  size = size;
  alignment = alignment;
  zeroed = from_bool z;
  committed = from_bool c;
  arena = arena;
}

honoured_lem :
    (new_address size alignment z c arena : ℕ) (a : ExtentAllocation)
    → is_honoured (request_for new_address size alignment z c arena) a ≡ true
    → ((new_address ≡ 0) ⊎ (a.address ≡ new_address))
      × ((from_bool z ≡ false) ⊎ (from_bool (to_bool a.zeroed) ≡ true))
      × ((from_bool c ≡ false) ⊎ (from_bool (to_bool a.committed) ≡ true))
unfolding is_honoured is_none_or_at non_null from_bool to_bool
honoured_lem new_address size alignment z c arena a h = (ground arith, ground arith, ground arith)

module _ {E State : Type 0} (hooks : ExtentHooks E State) where
  checked_served-IsHonest :
      (new_address size alignment z c arena : ℕ) (answer : Option ExtentAllocation)
      → IsHonest new_address z c
          (checked_served hooks true (request_for new_address size alignment z c arena) z c answer)
  unfolding checked_served served
  checked_served-IsHonest new_address size alignment z c arena none = inl refl
  checked_served-IsHonest new_address size alignment z c arena (some a) =
      let request = request_for new_address size alignment z c arena in
      elim (Bool-cases (is_honoured request a)) [
        | inl kept ↦ rw kept (inr (honoured_lem new_address size alignment z c arena a kept))
        | inr broken ↦ rw broken tt
      ]

  checked_serve-IsHonest :
      (new_address size alignment z c arena : ℕ)
      (slot : Option (Callback E State ExtentAlloc (Option ExtentAllocation))) (e : E)
      → IsHonest new_address z c
          (checked_serve hooks true slot (request_for new_address size alignment z c arena) z c e).0
  unfolding checked_serve
  checked_serve-IsHonest new_address size alignment z c arena none e = inl refl
  checked_serve-IsHonest new_address size alignment z c arena (some callback) e =
      checked_served-IsHonest new_address size alignment z c arena
        (callback hooks.state (request_for new_address size alignment z c arena) e).0

  unchecked_served :
      (request : ExtentAlloc) (z c : ℕ) (answer : Option ExtentAllocation)
      → checked_served hooks false request z c answer ≡ some (served hooks z c answer)
  unfolding checked_served
  unchecked_served request z c none = refl
  unchecked_served request z c (some a) = refl

  unchecked_serve :
      (slot : Option (Callback E State ExtentAlloc (Option ExtentAllocation)))
      (request : ExtentAlloc) (z c : ℕ) (e : E)
      → checked_serve hooks false slot request z c e
        ≡ (some (serve hooks slot request z c e).0, (serve hooks slot request z c e).1)
  unfolding checked_serve serve
  unchecked_serve none request z c e = refl
  unchecked_serve (some callback) request z c e =
      let (answer, e') = callback hooks.state request e in
      ap (λ r. (r, e')) (unchecked_served request z c answer)

  -- In a debug build, whatever the callback answers, jemalloc gets null or a mapping that honours its
  -- request: at the wanted address if there was one, and zeroed and committed where that was asked
  -- for. In a release build `alloc` answers without the checks.
  pub checked_alloc-IsHonest :
      (new_address size alignment z c arena : ℕ) (e : E)
      → IsHonest new_address z c (checked_alloc hooks true new_address size alignment z c arena e).0
        × (checked_alloc hooks false new_address size alignment z c arena e ≡ (
          some (alloc hooks new_address size alignment z c arena e).0,
          (alloc hooks new_address size alignment z c arena e).1,
        ))
  unfolding checked_alloc alloc
  checked_alloc-IsHonest new_address size alignment z c arena e = (
    checked_serve-IsHonest new_address size alignment z c arena hooks.callbacks.alloc e,
    unchecked_serve hooks.callbacks.alloc (request_for new_address size alignment z c arena) z c e,
  )
