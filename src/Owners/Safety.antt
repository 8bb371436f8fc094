-- ===== src/Owners/Safety.antt =====
-- Every program over handles that keep their contract destroys only live resources, and owns each
-- resource at most once for each time that it was given out.

use jevmalloc.Prelude.{
  ℕ, zero, suc, ◌+◌, ◌≤◌, ◌≡◌, Option, none, some, List, [], ◌∷◌, refl, ap, if◌then◌else◌, arith,
  true, false, Bool,
}
use jevmalloc.Owners.Ledger.{Ledger, Backs, nothing, one, count, lesser}
use jevmalloc.Owners.Interface.{Operations, IsOwner, GivesUp, weight, weight_of}
use jevmalloc.Owners.Programs.{
  Request, create, borrow, try_destroy, drop, into_index, from_owned_index, behind, pick, with,
  total, Program, serve, serve_all, owners, destroyed, dropped, given_up, reclaimed,
}

-- What a choice adds up to, with the rest that it leaves.
abbrev whole : {A : Type 0} → (A → ℕ) → Option (A × List A) → ℕ
whole f none = 0
whole f (some (x, rest)) = f x + total f rest

after_head :
    {A : Type 0} (f : A → ℕ) (y : A) (t : ℕ) (r : Option (A × List A)) {x : A} {rest : List A}
    → ((z : A) (others : List A) → r ≡ some (z, others) → t ≡ f z + total f others)
    → behind y r ≡ some (x, rest)
    → f y + t ≡ f x + total f rest
after_head f y t none h e = absurd (ground arith)
after_head f y t (some (z, others)) h e =
    let here : f z + (f y + total f others) ≡ f _ + total f _ = ap (whole f) e in
    omega (arith, here, h z others refl)

-- Picking an element takes its share out of a total.
total-pick :
    {A : Type 0} (f : A → ℕ) (k : ℕ) (xs : List A) {x : A} {rest : List A}
    → pick k xs ≡ some (x, rest)
    → total f xs ≡ f x + total f rest
total-pick f k [] h = absurd (ground arith)
total-pick f zero (y ∷ ys) h = ap (whole f) h
total-pick f (suc k) (y ∷ ys) h =
    after_head f y (total f ys) (pick k ys) (λ z others e. total-pick f k ys e) h

count-total : (i : ℕ) (xs : List ℕ) → count i xs ≡ total (λ x. one x i) xs
count-total i [] = refl
count-total i (x ∷ xs) = omega (arith, count-total i xs)

module _ {P H : Type 0} (o : Operations P H) (ledger : P → Ledger) (IsGood : P → Type 0) where
  -- The ledger backs what is held and what has been released.
  abbrev pub IsKept : Program P H → Type 0
  IsKept st =
      IsGood st.process × Backs (ledger st.process) (λ i. owners o st.held i + count i st.released)

  owners-with :
      (h : Option H) (held : List H) (i : ℕ)
      → owners o (with h held) i ≡ weight_of o h i + owners o held i
  owners-with none held i = omega arith
  owners-with (some h) held i = refl

  -- Without the handle at a place, what it weighs is apart from the rest.
  without :
      (st : Program P H) (k : ℕ) {h : H} {rest : List H}
      → pick k st.held ≡ some (h, rest)
      → Backs (ledger st.process) (λ i. owners o st.held i + count i st.released)
      → Backs (ledger st.process) (λ i. weight o h i + (owners o rest i + count i st.released))
  without st k e backed =
      lesser (ledger st.process) _ _
        (λ i. omega (arith, total-pick (λ x. weight o x i) k st.held e)) backed

  -- A weight with nothing beside it.
  padded :
      (st : Program P H)
      → Backs (ledger st.process) (λ i. owners o st.held i + count i st.released)
      → Backs (ledger st.process) (λ i. nothing i + (owners o st.held i + count i st.released))
  padded st backed = lesser (ledger st.process) _ _ (λ i. omega arith) backed

  released_at :
      (owned : Bool) (j : ℕ) (rest : List H) (released : List ℕ) (i : ℕ)
      → owners o rest i + count i (if owned then j ∷ released else released)
        ≤ (if owned then one j else nothing) i + (owners o rest i + count i released)
  released_at true j rest released i = omega arith
  released_at false j rest released i = omega arith

  taken :
      (i k : ℕ) (released : List ℕ) {j : ℕ} {rest : List ℕ}
      → pick k released ≡ some (j, rest)
      → count i released ≡ one j i + count i rest
  taken i k released {rest = rest} e =
      omega
        (arith, total-pick (λ x. one x i) k released e, count-total i released, count-total i rest)

  module _ (c : IsOwner o ledger IsGood) where
    destroyed-IsKept :
        (st : Program P H) (k : ℕ)
        → IsKept st
        → (r : Option (H × List H)) → pick k st.held ≡ r
        → IsKept (destroyed o st r)
    destroyed-IsKept st k kept none e = kept
    destroyed-IsKept st k (good, backed) (some (h, rest)) e = (
      c.try_destroy_good h st.process good,
      lesser (ledger (o.try_destroy h st.process).1) _ _
          (λ i. omega (arith, owners-with (o.try_destroy h st.process).0 rest i))
          (c.try_destroy_moves h st.process good _ (without st k e backed)),
    )

    dropped-IsKept :
        (st : Program P H) (k : ℕ)
        → IsKept st
        → (r : Option (H × List H)) → pick k st.held ≡ r
        → IsKept (dropped o st r)
    dropped-IsKept st k kept none e = kept
    dropped-IsKept st k (good, backed) (some (h, rest)) e = (
      c.drop_good h st.process good,
      lesser (ledger (o.drop h st.process)) _ _ (λ i. omega arith)
          (c.drop_moves h st.process good _ (without st k e backed)),
    )

    given_up-IsKept :
        (f : Option (H → P → ℕ × P))
        → GivesUp o ledger IsGood f
        → (st : Program P H) (k : ℕ) → IsKept st
        → (r : Option (H × List H)) → pick k st.held ≡ r
        → IsKept (given_up o f st r)
    given_up-IsKept none law st k kept r e = kept
    given_up-IsKept (some f) law st k kept none e = kept
    given_up-IsKept (some f) law st k (good, backed) (some (h, rest)) e =
        let (moves, good') = law h st.process good in
        (
          good',
          lesser (ledger (f h st.process).1) _ _
              (λ i. released_at (o.owned h) (f h st.process).0 rest st.released i)
              (moves _ (without st k e backed)),
        )

    reclaimed-IsKept :
        (st : Program P H) (k : ℕ)
        → IsKept st
        → (r : Option (ℕ × List ℕ)) → pick k st.released ≡ r
        → IsKept (reclaimed o st r)
    reclaimed-IsKept st k kept none e = kept
    reclaimed-IsKept st k (good, backed) (some (j, rest)) e =
        let others : ℕ → ℕ = λ i. owners o st.held i + count i rest in
        let before =
          lesser (ledger st.process) (λ i. one j i + others i) _
            (λ i. omega (arith, taken i k st.released e)) backed in
        (
          good,
          lesser (ledger st.process) _ _
              (λ i. omega (arith, owners-with (o.from_owned_index j) st.held i))
              (c.from_owned_index_moves j (ledger st.process) others before),
        )

    serve-IsKept : (st : Program P H) (r : Request) → IsKept st → IsKept (serve o st r)
    unfolding serve
    serve-IsKept st create (good, backed) = (
      c.create_good st.process good,
      lesser (ledger (o.create st.process).1) _ _
          (λ i. omega (arith, owners-with (o.create st.process).0 st.held i))
          (c.create_moves st.process good (λ i. owners o st.held i + count i st.released)
            (padded st backed)),
    )
    serve-IsKept st (borrow j) (good, backed) = (
      good,
      lesser (ledger st.process) _ _ (λ i. omega (arith, owners-with (o.borrow j) st.held i))
          (c.borrow_owns_nothing j (ledger st.process)
            (λ i. owners o st.held i + count i st.released) (padded st backed)),
    )
    serve-IsKept st (try_destroy k) kept = destroyed-IsKept st k kept (pick k st.held) refl
    serve-IsKept st (drop k) kept = dropped-IsKept st k kept (pick k st.held) refl
    serve-IsKept st (into_index k) kept =
        given_up-IsKept o.into_index c.into_index_moves st k kept (pick k st.held) refl
    serve-IsKept st (from_owned_index k) kept = reclaimed-IsKept st k kept (pick k st.released) refl

    -- However a program goes on from a state whose ledger backs it, the ledger backs it again.
    pub serve_all-IsKept :
        (st : Program P H) (requests : List Request) → IsKept st → IsKept (serve_all o st requests)
    unfolding serve_all
    serve_all-IsKept st [] kept = kept
    serve_all-IsKept st (r ∷ rest) kept =
        serve_all-IsKept (serve o st r) rest (serve-IsKept st r kept)
