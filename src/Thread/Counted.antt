-- ===== src/Thread/Counted.antt =====
-- The direct counters of a thread against its typed counters.
use jevmalloc.Prelude.{◌<◌, ap, ℕ, ◌≡◌, ◌≢◌, ◌∙◌, String, some, none, codes, arith}
use jevmalloc.System.{System, Process, ok, usize_bytes, ◌>>=◌, bind_ok}
use jevmalloc.Ctl.Error.{into_result, from_code}
use jevmalloc.Ctl.Raw.{Key, mibs, get}
use jevmalloc.Ctl.Key.{key}
use jevmalloc.Ctl.Caching.{IsStable, IsCoherent, key_transparent, mibs-fixed}
use jevmalloc.Opt.Answers.{usize_bytes-pos}
use jevmalloc.Arena.Controls.{non_null_or_fault}
use jevmalloc.Thread.Counters
use jevmalloc.Thread.Counters.{ThreadCounters, current}
use jevmalloc.Thread.This

module _ {W : Type 0} (s : System W) where
  -- What is documented of a counter: one control gives a pointer to it, another one its value.
  pub record IsCounter (pointer_key value_key : Key) (address : ℕ) : Type 0 where
    pub not_null : address ≢ 0
    pub pointer :
        (w : W)
        → s.mallctlbymib pointer_key (some (none, usize_bytes s.arch)) none w
          ≡ (record { status = 0; value = address; len = usize_bytes s.arch }, w)
    pub value :
        (w : W)
        → s.mallctlbymib value_key (some (none, 8)) none w
          ≡ (record { status = 0; value = s.read_u64 address w; len = 8 }, w)

  -- A read that succeeds and changes nothing.
  quiet_get :
      (size : ℕ) (k : Key) (v : ℕ) (q : Process W)
      → 0 < size
      → s.mallctlbymib k (some (none, size)) none q.world
        ≡ (record { status = 0; value = v; len = size }, q.world)
      → get s size k q ≡ (ok v, q)
  unfolding get into_result from_code
  quiet_get size k v q pos h = ground arith

  -- Where a name has a key, in a coherent state.
  abbrev pub HasKey : String → Key → Process W → Type 0
  HasKey name k p = (mibs s (codes name) p).0 ≡ ok k

  module _ (st : IsStable s) where
    key_lem :
        (name : String) (k : Key) (p : Process W)
        → IsCoherent s p
        → HasKey name k p
        → key s name p ≡ (ok k, (key s name p).1)
    key_lem name k p c e = λ i. (((key_transparent s st name p c).0 ∙ e) i, (key s name p).1)

    typed_lem :
        (name : String) (k : Key) (v : ℕ) (p : Process W)
        → IsCoherent s p
        → HasKey name k p
        → ((w : W)
            → s.mallctlbymib k (some (none, 8)) none w
              ≡ (record { status = 0; value = s.read_u64 v w; len = 8 }, w))
        → ((key s name >>= get s 8) p).0 ≡ ok (s.read_u64 v p.world)
    typed_lem name k v p c e h =
        let q = (key s name p).1 in
        let (same, kept, _) = key_transparent s st name p c in
        ap (λ r. r.0)
          (bind_ok (key s name) (get s 8) p (same ∙ e)
            ∙ quiet_get 8 k (s.read_u64 v q.world) q (omega arith) (h q.world))
        ∙ ap (λ w. ok (s.read_u64 v w)) kept

    module _ {ka kd va vd : Key} {a d : ℕ} (ca : IsCounter ka va a) (cd : IsCounter kd vd d) where
      current_lem :
          (p : Process W)
          → IsCoherent s p
          → HasKey "thread.allocatedp" ka p
          → HasKey "thread.deallocatedp" kd p
          → (current s p).0 ≡ ok (record { allocated_ptr = a; deallocated_ptr = d })
      unfolding current non_null_or_fault
      current_lem p c ha hd =
          let q = (key s "thread.allocatedp" p).1 in
          let (_, _, cq) = key_transparent s st "thread.allocatedp" p c in
          let hd' : HasKey "thread.deallocatedp" kd q =
            mibs-fixed s st (codes "thread.deallocatedp") q p ∙ hd in
          let r = (key s "thread.deallocatedp" q).1 in
          let first = key_lem "thread.allocatedp" ka p c ha in
          let second = key_lem "thread.deallocatedp" kd q cq hd' in
          let size = usize_bytes s.arch in
          let third = quiet_get size ka a r (usize_bytes-pos s.arch) (ca.pointer r.world) in
          let fourth = quiet_get size kd d r (usize_bytes-pos s.arch) (cd.pointer r.world) in
          let na = ca.not_null in
          let nd = cd.not_null in ground (arith, first, second, third, fourth)

      -- On a jemalloc that keeps the two counters of the thread as documented, from a coherent
      -- state, `ThreadCounters::current` succeeds with the two addresses, and in every coherent
      -- state afterwards a load through them is what the typed getters of the counters return.
      pub counters_agree :
          (p q : Process W)
          → IsCoherent s p
          → IsCoherent s q
          → HasKey "thread.allocatedp" ka p
          → HasKey "thread.deallocatedp" kd p
          → HasKey "thread.allocated" va p
          → HasKey "thread.deallocated" vd p
          → let c : ThreadCounters = record { allocated_ptr = a; deallocated_ptr = d } in
            ((current s p).0 ≡ ok c)
            × ((This.allocated s q).0 ≡ ok (Counters.allocated s c q.world))
            × ((This.deallocated s q).0 ≡ ok (Counters.deallocated s c q.world))
      unfolding This.allocated This.deallocated This.get_u64 Counters.allocated Counters.deallocated
      counters_agree p q cp cq hka hkd hva hvd = (
        current_lem p cp hka hkd,
        typed_lem "thread.allocated" va a q cq
            (mibs-fixed s st (codes "thread.allocated") q p ∙ hva) ca.value,
        typed_lem "thread.deallocated" vd d q cq
            (mibs-fixed s st (codes "thread.deallocated") q p ∙ hvd) cd.value,
      )
