-- ===== src/Global/Sessions/Honoured.antt =====
-- Whatever a client of the global allocator does, jemalloc's own contract is honoured.
use jevmalloc.Prelude.{
  ℕ, ◌≡◌, refl, inl, inr, false, Option, none, some, List, [], ◌∷◌, arith, All, Bool-cases,
  Option-cases,
}
use jevmalloc.System.{System, Process}
use jevmalloc.Global.Layout.{Layout}
use jevmalloc.Global.Alloc.{Build, observe}
use jevmalloc.Global.Valid.{IsLayout}
use jevmalloc.Global.Requests.{alloc_lem, alloc_zeroed_lem, realloc_lem, dealloc_lem}
use jevmalloc.Global.Audit.{
  Ledger, no_blocks, audited, audited_build, map_slot, aside_layout, aside_pointer, aside_resize,
}
use jevmalloc.Global.Sessions.{
  find_held, Request, ask, ask_zeroed, resize, give_back, Session, serve, serve_all, IsProper,
  resize_held, release_held,
}
use jevmalloc.Global.Sessions.Ledger.{Honours, mallocx-Honours, rallocx-Honours, sdallocx-Honours}

module _ {W : Type 0} (s : System W) (b : Build W) where
  abbrev pub Audited : Type 0
  Audited = Session (W × Ledger)

  -- A callback does not touch the ledger.
  observe-ledger :
      {H K : Type 0} (slot : Option H) (lift : H → K)
      (call : K → Process (W × Ledger) → Process (W × Ledger)) (p : Process (W × Ledger))
      → ((f : H) (q : Process (W × Ledger)) → (call (lift f) q).world.1 ≡ q.world.1)
      → (observe b.global_hooks (map_slot lift slot) call p).1.world.1 ≡ p.world.1
  unfolding observe
  observe-ledger none lift call p h = ground arith
  observe-ledger (some f) lift call p h = elim (Bool-cases b.global_hooks) [
    | inl on ↦ rw on (h f p)
    | inr off ↦ rw off refl
  ]

  abbrev pub IsHonoured : Audited → Type 0
  IsHonoured st = Honours s b st.process.world.1 st.held

  module _ (release : b.debug_assertions ≡ false) where
    ask-IsHonoured :
        (st : Audited) (l : Layout)
        → IsHonoured st
        → IsHonoured (serve (audited s) (audited_build b) st (ask l))
    unfolding serve audited audited_build
    ask-IsHonoured st l h =
        let p = st.process in
        let same = observe-ledger b.on_alloc aside_layout (λ hook. hook l) p (λ f q. refl) in
        rw (alloc_lem (audited s) (audited_build b) release l p)
          (rw same (mallocx-Honours s b p.world.1 st.held l _ _ refl h))

    zeroed-IsHonoured :
        (st : Audited) (l : Layout)
        → IsLayout s.arch l
        → IsHonoured st
        → IsHonoured (serve (audited s) (audited_build b) st (ask_zeroed l))
    unfolding serve audited audited_build
    zeroed-IsHonoured st l v h =
        let p = st.process in
        let same = observe-ledger b.on_alloc_zeroed aside_layout (λ hook. hook l) p (λ f q. refl) in
        rw (alloc_zeroed_lem (audited s) (audited_build b) release l p v)
          (rw same (mallocx-Honours s b p.world.1 st.held l _ _ (omega arith) h))

    resize-IsHonoured :
        (st : Audited) (old size : ℕ)
        → IsHonoured st
        → IsHonoured (serve (audited s) (audited_build b) st (resize old size))
    unfolding serve audited audited_build resize_held
    resize-IsHonoured st old size h = elim (Option-cases (find_held old st.held)) [
      | inl absent ↦ rw absent h
      | inr (l, e) ↦
          (let p = st.process in
            let same =
              observe-ledger b.on_realloc aside_resize (λ hook. hook l old size) p (λ f q. refl) in
            rw e (
              rw (realloc_lem (audited s) (audited_build b) release old l size p) (
                rw same
                  (rallocx-Honours s b p.world.1 st.held (record l { size = size }) l old _ e h))))
    ]

    release-IsHonoured :
        (st : Audited) (ptr : ℕ)
        → IsHonoured st
        → IsHonoured (serve (audited s) (audited_build b) st (give_back ptr))
    unfolding serve audited audited_build release_held
    release-IsHonoured st ptr h = elim (Option-cases (find_held ptr st.held)) [
      | inl absent ↦ rw absent h
      | inr (l, e) ↦
          (let p = st.process in
            let same =
              observe-ledger b.on_dealloc aside_pointer (λ hook. hook l ptr) p (λ f q. refl) in
            rw e (
              rw (dealloc_lem (audited s) (audited_build b) release ptr l p)
                (rw same (sdallocx-Honours s b p.world.1 st.held l ptr e h))))
    ]

    serve-IsHonoured :
        (st : Audited) (r : Request)
        → IsProper (audited s) (audited_build b) r
        → IsHonoured st
        → IsHonoured (serve (audited s) (audited_build b) st r)
    unfolding audited
    serve-IsHonoured st (ask l) v h = ask-IsHonoured st l h
    serve-IsHonoured st (ask_zeroed l) v h = zeroed-IsHonoured st l v h
    serve-IsHonoured st (resize old size) v h = resize-IsHonoured st old size h
    serve-IsHonoured st (give_back ptr) v h = release-IsHonoured st ptr h

    run-IsHonoured :
        (requests : List Request) (st : Audited)
        → All (IsProper (audited s) (audited_build b)) requests
        → IsHonoured st
        → IsHonoured (serve_all (audited s) (audited_build b) st requests)
    unfolding serve_all
    run-IsHonoured [] st v h = h
    run-IsHonoured (r ∷ rest) st v h = run-IsHonoured rest _ v.1 (serve-IsHonoured st r v.0 h)

    -- However a client that keeps the contract of `GlobalAlloc` uses a release build, every call of
    -- `mallocx`, `rallocx` and `sdallocx` keeps the contract of jemalloc: no size is zero, and only
    -- live blocks are resized or released, with the size and the alignment they were asked for.
    -- At every point the live blocks are those that the client holds, so none is lost.
    pub sessions_honour :
        (p : Process W) (requests : List Request)
        → All (IsProper (audited s) (audited_build b)) requests
        → IsHonoured (
            serve_all
              (audited s)
              (audited_build b)
              (record {
                process = record { world = (p.world, no_blocks); caches = p.caches };
                held = [];
              })
              requests)
    sessions_honour p requests v = run-IsHonoured requests _ v (refl, tt)
