-- ===== src/Arena/Ranges.antt =====
-- Every handle has an index in range, and only created or reclaimed handles own their arena.
use jevmalloc.Prelude.{ℕ, ◌<◌, ◌≤◌, ◌≡◌, ◌≢◌, ◌↔◌, Bool, true, false, arith, refl}
use jevmalloc.System.{Outcome, ok, err, panic, System, Process}
use jevmalloc.Ctl.Error.{invalid_argument, from_code}
use jevmalloc.Extent.Hooks.{RawExtentHooks, Static, ExtentHooks, as_raw}
use jevmalloc.Arena.Controls.{create_with_raw_extent_hooks, create_with_extent_hooks}
use jevmalloc.Arena.Index.{arena_index_limit, validated_index, usize_try_from, uint_try_from}
use jevmalloc.Arena.Handle.{
  Arena, from_created_index, create, from_index, from_owned_index, current, lookup, set_current,
}

-- What a constructor promises of the handle that it returns: its ownership, and an index below the
-- 4095 that a flag word can name.
abbrev pub Yields : Bool → Outcome Arena → Type 0
Yields o (ok a) = (a.owned ≡ o) × (a.index < 4095)
Yields o (err _) = Unit
Yields o panic = Unit

module _ {W : Type 0} (s : System W) where
  -- An index passes validation exactly when it is below the limit, and then it is unchanged; any
  -- other index is `EINVAL`.
  validated_index_cases :
      s.errno.einval ≢ 0
      → (i : ℕ)
      → ((validated_index s i ≡ ok i) ↔ (i < arena_index_limit))
        × ((validated_index s i ≡ err (record { code = s.errno.einval })) ↔ (arena_index_limit ≤ i))
  unfolding validated_index uint_try_from invalid_argument
  validated_index_cases nz i = ground arith

  -- The same as a function of the handle, in which form the parts are proved.
  abbrev Promises : Bool → Outcome Arena → Type 0
  Promises o r = (a : Arena) → r ≡ ok a → (a.owned ≡ o) × (a.index < 4095)

  Yields-Promises : (o : Bool) (r : Outcome Arena) → Promises o r → Yields o r
  Yields-Promises o (ok a) h = h a refl
  Yields-Promises o (err _) h = tt
  Yields-Promises o panic h = tt

  from_created_index-Promises : (i : ℕ) → Promises true (from_created_index s i)
  unfolding from_created_index validated_index uint_try_from usize_try_from invalid_argument
  from_created_index-Promises i a h = ground arith

  from_index-Promises : (i : ℕ) → Promises false (from_index s i)
  unfolding from_index validated_index uint_try_from invalid_argument
  from_index-Promises i a h = ground arith

  from_owned_index-Promises : (i : ℕ) → Promises true (from_owned_index s i)
  unfolding from_owned_index validated_index uint_try_from invalid_argument
  from_owned_index-Promises i a h = ground arith

  create-Promises : (p : Process W) → Promises true (create s p).0
  unfolding create
  create-Promises p a h = grind (arith, from_created_index-Promises)

  lookup-Promises : (ptr : ℕ) (p : Process W) → Promises false (lookup s ptr p).0
  unfolding lookup
  lookup-Promises ptr p a h = grind (arith, from_index-Promises)

  current-Promises : (p : Process W) → Promises false (current s p).0
  unfolding current
  current-Promises p a h = grind (arith, from_index-Promises)

  set_current-Promises : (a : Arena) (p : Process W) → Promises false (set_current s a p).0
  unfolding set_current
  set_current-Promises a p b h = grind (arith, from_index-Promises)

  create_with_raw_extent_hooks-Promises :
      (hooks : Static RawExtentHooks) (p : Process W)
      → Promises true (create_with_raw_extent_hooks s hooks p).0
  unfolding create_with_raw_extent_hooks invalid_argument from_code
  create_with_raw_extent_hooks-Promises hooks p a h = grind (arith, from_created_index-Promises)

  create_with_extent_hooks-Promises :
      {E State : Type 0} (hooks : Static (ExtentHooks E State)) (p : Process W)
      → Promises true (create_with_extent_hooks s hooks p).0
  unfolding create_with_extent_hooks
  create_with_extent_hooks-Promises hooks p = create_with_raw_extent_hooks-Promises (as_raw hooks) p

  -- Every handle that one of the eight constructors of `Arena` returns has an index below 4095. The
  -- handles from creation, with and without extent hooks, and from reclaimed ownership own their
  -- arena; all others do not.
  pub constructors-Yields :
      {E State : Type 0} (i ptr : ℕ) (a : Arena) (raw : Static RawExtentHooks)
      (hooks : Static (ExtentHooks E State)) (p : Process W)
      → Yields true (create s p).0
        × Yields true (create_with_extent_hooks s hooks p).0
        × Yields true (create_with_raw_extent_hooks s raw p).0
        × Yields true (from_owned_index s i)
        × Yields false (from_index s i)
        × Yields false (current s p).0
        × Yields false (lookup s ptr p).0
        × Yields false (set_current s a p).0
  constructors-Yields i ptr a raw hooks p = (
    Yields-Promises true (create s p).0 (create-Promises p),
    Yields-Promises true (create_with_extent_hooks s hooks p).0
        (create_with_extent_hooks-Promises hooks p),
    Yields-Promises true (create_with_raw_extent_hooks s raw p).0
        (create_with_raw_extent_hooks-Promises raw p),
    Yields-Promises true (from_owned_index s i) (from_owned_index-Promises i),
    Yields-Promises false (from_index s i) (from_index-Promises i),
    Yields-Promises false (current s p).0 (current-Promises p),
    Yields-Promises false (lookup s ptr p).0 (lookup-Promises ptr p),
    Yields-Promises false (set_current s a p).0 (set_current-Promises a p),
  )
