-- ===== src/Extent/Install/Cases.antt =====
-- Every hook table is either refused or installed by one call, and nothing else happens.
use jevmalloc.Prelude.{
  ℕ, ◌≤◌, ◌≡◌, ◌≢◌, ◌∙◌, inl, inr, refl, ap, Option, none, some, length, set, codes, arith,
}
use jevmalloc.System.{System, Process, ok, lift, usize_bytes, ◌>>=◌}
use jevmalloc.Ctl.Error.{invalid_argument, bad_address, into_result, from_code}
use jevmalloc.Ctl.Raw.{Key, split_count, mibs, update, xchg}
use jevmalloc.Ctl.Names.{length-mibs}
use jevmalloc.Ctl.Key.{key}
use jevmalloc.Ctl.Caching.{IsStable, IsCoherent}
use jevmalloc.Ctl.Queries.{
  seen, meaning, converted, exchange_at, xchg-seen, converted-seen, after_key-seen, bind_assoc,
}
use jevmalloc.Opt.Answers.{usize_bytes-pos}
use jevmalloc.Extent.Hooks.{
  RawExtentHooks, Static, Callback, ExtentAlloc, ExtentAllocation, ExtentCallbacks, ExtentHooks,
  Trampolines, new, slot, as_raw,
}
use jevmalloc.Arena.Index.{uint_bytes, validated_index, usize_try_from, uint_try_from}
use jevmalloc.Arena.Handle.{Arena, from_created_index, select}
use jevmalloc.Arena.Controls.{
  selected_key, xchg_word, non_null_or_fault, create_with_raw_extent_hooks,
  create_with_extent_hooks, set_raw_extent_hooks, set_extent_hooks,
}
use jevmalloc.Extent.Install.{created, replaced, Decides}

module _ {W : Type 0} (s : System W) where
  update-seen :
      (k : Key) (address : ℕ) (q : Process W)
      → seen (update s (usize_bytes s.arch) uint_bytes k address q) ≡ (
          let (r, w) =
            s.mallctlbymib k (some (none, 4)) (some (address, usize_bytes s.arch)) q.world in
          (meaning 4 r, w))
  unfolding update into_result from_code
  update-seen k address q = ground (arith, usize_bytes-pos s.arch)

  created_lem : s.errno.einval ≢ 0 → (i : ℕ) → from_created_index s i ≡ created s i
  unfolding from_created_index validated_index usize_try_from uint_try_from invalid_argument
  created_lem nz i = ground arith

  replaced_lem : s.errno.efault ≢ 0 → (h : ℕ) → non_null_or_fault s h ≡ replaced s h
  unfolding non_null_or_fault bad_address
  replaced_lem nz h = ground arith

  selected_lem :
      (k : Key) (a : Arena) (v : ℕ) (q : Process W)
      → 2 ≤ length k
      → (lift (select s a.index k) >>= λ k'. xchg s (usize_bytes s.arch) k' v) q
        ≡ xchg s (usize_bytes s.arch) (set k 1 a.index) v q
  unfolding select
  selected_lem k a v q h = ground arith

  module _ (st : IsStable s) where
    long :
        (k : Key) (p : Process W)
        → (mibs s (codes "arena.0.extent_hooks") p).0 ≡ ok k
        → 2 ≤ length k
    unfolding split_count
    long k p e = omega (arith, (length-mibs s (codes "arena.0.extent_hooks") p e).0)

    create-seen :
        s.errno.einval ≢ 0
        → (k : Key) (address : ℕ) (p : Process W) → IsCoherent s p
        → (mibs s (codes "arenas.create") p).0 ≡ ok k
        → seen (
            (key s "arenas.create" >>= λ k.
            update s (usize_bytes s.arch) uint_bytes k address >>= λ i.
            lift (from_created_index s i))
              p)
          ≡ (let (r, w) =
                s.mallctlbymib k (some (none, 4)) (some (address, usize_bytes s.arch)) p.world in
              converted (created s) (meaning 4 r, w))
    create-seen nz k address p h e =
        after_key-seen s st "arenas.create" k
          (λ k. update s (usize_bytes s.arch) uint_bytes k address >>= λ i.
            lift (from_created_index s i))
          p
          (λ world.
            let (r, w) =
              s.mallctlbymib k (some (none, 4)) (some (address, usize_bytes s.arch)) world in
            converted (created s) (meaning 4 r, w))
          h e
          λ q hq.
            converted-seen s (update s (usize_bytes s.arch) uint_bytes k address)
              (from_created_index s) q
            ∙ ap (converted (from_created_index s)) (update-seen k address q)
            ∙ (λ j.
                let (r, w) =
                  s.mallctlbymib k (some (none, 4)) (some (address, usize_bytes s.arch)) q.world in
                converted (λ i. created_lem nz i j) (meaning 4 r, w))

    replace-seen :
        s.errno.efault ≢ 0
        → (k : Key) (a : Arena) (address : ℕ) (p : Process W) → IsCoherent s p
        → (mibs s (codes "arena.0.extent_hooks") p).0 ≡ ok k
        → seen (
            (xchg_word s "arena.0.extent_hooks" a address >>= λ previous.
            lift (non_null_or_fault s previous))
              p)
          ≡ converted
              (replaced s)
              (exchange_at s (usize_bytes s.arch) address (set k 1 a.index) p.world)
    unfolding xchg_word selected_key
    replace-seen nz k a address p h e =
        converted-seen s (xchg_word s "arena.0.extent_hooks" a address) (non_null_or_fault s) p
        ∙ ap (λ r. converted (non_null_or_fault s) (seen r))
            (bind_assoc (key s "arena.0.extent_hooks") (λ k'. lift (select s a.index k'))
              (λ k'. xchg s (usize_bytes s.arch) k' address) p)
        ∙ ap (converted (non_null_or_fault s)) (
            after_key-seen s st "arena.0.extent_hooks" k
              (λ k'. lift (select s a.index k') >>= λ k'. xchg s (usize_bytes s.arch) k' address) p
              (exchange_at s (usize_bytes s.arch) address (set k 1 a.index)) h e
              λ q hq.
                ap seen (selected_lem k a address q (long k p e))
                ∙ xchg-seen s (usize_bytes s.arch) address (set k 1 a.index) q
                    (usize_bytes-pos s.arch))
        ∙ (λ j.
            converted (λ v. replaced_lem nz v j)
              (exchange_at s (usize_bytes s.arch) address (set k 1 a.index) p.world))

    module _ (nz : s.errno.einval ≢ 0) (nz' : s.errno.efault ≢ 0) (a : Arena) (k k' : Key)
        (p : Process W) (coherent : IsCoherent s p)
        (create_key : (mibs s (codes "arenas.create") p).0 ≡ ok k)
        (hooks_key : (mibs s (codes "arena.0.extent_hooks") p).0 ≡ ok k') where
      raw-Decides :
          (address : ℕ) (table : RawExtentHooks) (alloc : Option ℕ)
          → table.alloc ≡ alloc
          → let hooks : Static RawExtentHooks = record { address = address; target = table } in
            Decides s alloc address a k k' p
              (create_with_raw_extent_hooks s hooks)
              (set_raw_extent_hooks s a hooks)
      unfolding create_with_raw_extent_hooks set_raw_extent_hooks invalid_argument from_code
      raw-Decides address table none e = inl (refl, (rw e (ground arith), rw e (ground arith)))
      raw-Decides address table (some f) e = inr (
        ground arith,
        (
          rw e (create-seen nz k address p coherent create_key),
          rw e (replace-seen nz' k' a address p coherent hooks_key),
        ),
      )

      module _ {E State : Type 0} where
        new-Decides :
            (t : Trampolines) (state : State) (c : ExtentCallbacks E State)
            (alloc : Option (Callback E State ExtentAlloc (Option ExtentAllocation))) (address : ℕ)
            → c.alloc ≡ alloc
            → let hooks : Static (ExtentHooks E State) = record {
              address = address;
              target = new t state c;
            } in
              Decides s alloc address a k k' p
                (create_with_extent_hooks s hooks)
                (set_extent_hooks s a hooks)
        unfolding new slot as_raw create_with_extent_hooks set_extent_hooks
        new-Decides t state c none address e =
            elim (raw-Decides address (new t state c).raw none (ap (λ f. slot f t.alloc) e)) [
              | inl (_, refused) ↦ inl (refl, refused)
              | inr (good, _) ↦ absurd (good refl)
            ]
        new-Decides t state c (some f) address e =
            elim (raw-Decides address (new t state c).raw (some t.alloc)
              (ap (λ f. slot f t.alloc) e)) [
                | inl (bad, _) ↦ absurd (ground arith)
                | inr (_, installs) ↦ inr (ground arith, installs)
              ]

        -- Where names are translated as documented, the two error codes are not zero, the state is
        -- coherent and both names have keys: a raw table without an allocation hook is refused with
        -- `EINVAL` at creation and at replacement, and nothing changes. Any other is installed by
        -- its address, by one call each: the creation returns an owned handle for the index that it
        -- answers with, or `EINVAL` from 4095 on, and the replacement the previous table, or
        -- `EFAULT` for null. The same holds of a table that `ExtentHooks::new` builds, by whether
        -- its callback set has an allocation callback.
        pub install_cases :
            (raw : Static RawExtentHooks) (address : ℕ) (t : Trampolines) (state : State)
            (c : ExtentCallbacks E State)
            → let table : Static (ExtentHooks E State) = record {
              address = address;
              target = new t state c;
            } in
              Decides s raw.target.alloc raw.address a k k' p
                (create_with_raw_extent_hooks s raw)
                (set_raw_extent_hooks s a raw)
              × Decides s c.alloc address a k k' p
                  (create_with_extent_hooks s table)
                  (set_extent_hooks s a table)
        install_cases raw address t state c = (
          raw-Decides raw.address raw.target raw.target.alloc refl,
          new-Decides t state c c.alloc address refl,
        )
