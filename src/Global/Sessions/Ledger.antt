-- ===== src/Global/Sessions/Ledger.antt =====
-- What a client of the global allocator holds, against the ledger of the contract of jemalloc.
use mathlib.Core.Path.{subst}
use mathlib.Core.Option.{some-injective}
use jevmalloc.Prelude.{
  ℕ, ◌%◌, ◌≡◌, refl, sym, ap, ◌∙◌, inl, inr, true, false, not, ◌&&◌, Option, some, List, [], ◌∷◌,
  arith, Bool-cases, ◌==◌,
}
use jevmalloc.System.{System, ok}
use jevmalloc.Global.Layout.{Layout, adjust_layout}
use jevmalloc.Global.Alloc.{Build}
use jevmalloc.Global.Valid.{quantum-cases}
use jevmalloc.Global.Requests.{request_size, request_flags}
use jevmalloc.Global.Audit.{
  Block, Ledger, find_block, remove_block, is_live, enter_mallocx, enter_rallocx, enter_sdallocx,
}
use jevmalloc.Global.Sessions.{took, resized, Held, find_held, remove_held}

module _ {W : Type 0} (s : System W) (b : Build W) where
  -- The ledger holds a block for the size and the alignment that stand for a layout.
  pub record IsFor (l : Layout) (x : Block) : Type 0 where
    pub size : x.size ≡ request_size s b l
    pub align : x.flags % 64 ≡ request_flags s b l % 64

  -- Each block that the client holds is live, and no other.
  abbrev pub Agrees : List Held → List Block → Type 0
  Agrees [] [] = Unit
  Agrees (h ∷ hs) (x ∷ xs) = (h.ptr ≡ x.ptr) × IsFor h.layout x × Agrees hs xs
  Agrees _ _ = ⊥

  pub record Found (l : Layout) (o : Option Block) : Type 0 where
    pub block : Block
    pub found : o ≡ some block
    pub is_for : IsFor l block

  find-Agrees :
      (ptr : ℕ) (hs : List Held) (xs : List Block) {l : Layout}
      → Agrees hs xs
      → find_held ptr hs ≡ some l
      → Found l (find_block ptr xs)
  find-Agrees ptr [] [] a e = absurd (grind arith)
  find-Agrees ptr (h ∷ hs) [] a e = absurd a
  find-Agrees ptr [] (x ∷ xs) a e = absurd a
  find-Agrees ptr (h ∷ hs) (x ∷ xs) {l} (same, is_for, a) e = elim (Bool-cases (h.ptr == ptr)) [
    | inl here ↦
        (let e' = rw here at e in
          record {
            block = x;
            found = rw (ap (λ p. p == ptr) (sym same) ∙ here) refl;
            is_for = subst (λ l. IsFor l x) (some-injective h.layout l e') is_for;
          })
    | inr later ↦
        (let e' = rw later at e in
          let rest = find-Agrees ptr hs xs a e' in
          record {
            block = rest.block;
            found = rw (ap (λ p. p == ptr) (sym same) ∙ later) rest.found;
            is_for = rest.is_for;
          })
  ]

  remove-Agrees :
      (ptr : ℕ) (hs : List Held) (xs : List Block)
      → Agrees hs xs
      → Agrees (remove_held ptr hs) (remove_block ptr xs)
  remove-Agrees ptr [] [] a = tt
  remove-Agrees ptr (h ∷ hs) [] a = absurd a
  remove-Agrees ptr [] (x ∷ xs) a = absurd a
  remove-Agrees ptr (h ∷ hs) (x ∷ xs) (same, is_for, a) = elim (Bool-cases (h.ptr == ptr)) [
    | inl here ↦ rw here (rw (ap (λ p. p == ptr) (sym same) ∙ here) a)
    | inr later ↦
        rw later
          (rw (ap (λ p. p == ptr) (sym same) ∙ later) (same, is_for, remove-Agrees ptr hs xs a))
  ]

  -- What holds between the ledger and the blocks of the client at every point.
  abbrev pub Honours : Ledger → List Held → Type 0
  Honours ledger held = (ledger.honoured ≡ true) × Agrees held ledger.live

  request_size-pos : (l : Layout) → (request_size s b l == 0) ≡ false
  unfolding adjust_layout
  request_size-pos l = elim (quantum-cases s.arch) [ inl e ↦ ground arith | inr e ↦ ground arith ]

  pub mallocx-Honours :
      (ledger : Ledger) (held : List Held) (l : Layout) (ptr flags : ℕ)
      → flags % 64 ≡ request_flags s b l % 64
      → Honours ledger held
      → Honours (enter_mallocx (request_size s b l) flags ptr ledger) (took (ok ptr) l held)
  unfolding enter_mallocx
  mallocx-Honours ledger held l ptr flags align (good, a) =
      let good' : (ledger.honoured && not (request_size s b l == 0)) ≡ true =
        rw good (rw (request_size-pos l) refl) in
      elim (Bool-cases (ptr == 0)) [
        | inl lost ↦ (good', rw lost a)
        | inr given ↦ (good', rw given (refl, record { size = refl; align = align }, a))
      ]

  pub rallocx-Honours :
      (ledger : Ledger) (held : List Held) (l before : Layout) (old ptr : ℕ)
      → find_held old held ≡ some before
      → Honours ledger held
      → Honours
          (enter_rallocx old (request_size s b l) (request_flags s b l) ptr ledger)
          (resized (ok ptr) old l held)
  unfolding enter_rallocx
  rallocx-Honours ledger held l before old ptr e (good, a) =
      let f = find-Agrees old held ledger.live a e in
      let good' : (ledger.honoured
            && is_live (find_block old ledger.live)
            && not (request_size s b l == 0))
          ≡ true =
        rw good (rw f.found (rw (request_size-pos l) refl)) in
      elim (Bool-cases (ptr == 0)) [
        | inl lost ↦ (good', rw lost a)
        | inr given ↦ (
          good',
          rw given
              (refl, record { size = refl; align = refl }, remove-Agrees old held ledger.live a),
        )
      ]

  pub sdallocx-Honours :
      (ledger : Ledger) (held : List Held) (l : Layout) (ptr : ℕ)
      → find_held ptr held ≡ some l
      → Honours ledger held
      → Honours
          (enter_sdallocx ptr (request_size s b l) (request_flags s b l) ledger)
          (remove_held ptr held)
  unfolding enter_sdallocx
  sdallocx-Honours ledger held l ptr e (good, a) =
      let f = find-Agrees ptr held ledger.live a e in
      (
        rw good (rw f.found (rw f.is_for.size (rw f.is_for.align (ground arith)))),
        remove-Agrees ptr held ledger.live a,
      )
