-- ===== src/Ctl/Caching.antt =====
-- The key caches are transparent: whatever was cached, an accessor answers as a translation would.

use text.Mathlib.Text.{◌==◌ as str_eq}
use text.Mathlib.TextEquality.{eq_iff}
use mathlib.Core.Path.{subst}
use mathlib.Core.List.{append-nil, append_assoc}
use jevmalloc.Prelude.{
  ℕ, suc, ◌+◌, ◌≤◌, ◌≡◌, ◌⊎◌, inl, inr, refl, sym, ap, ◌∙◌, true, String, List, [], ◌∷◌, ◌++◌,
  arith, Bool-cases, ltb, length, take, codes, length-append, length-take,
}
use jevmalloc.System.{
  Translation, Errno, Outcome, ok, err, panic, Cache, System, Process, pure, ◌>>=◌, ◌>>◌,
}
use jevmalloc.Ctl.Raw.{Key, key_segs, is_rejected, checked_key, split_count, name_buf, mibs}
use jevmalloc.Ctl.Error.{invalid_argument, from_code, into_result}
use jevmalloc.Ctl.Names.{length-mibs, caches-mibs}
use jevmalloc.Ctl.Key.{store, push_all, load, publish, translate, key, new}

-- Pushing within the capacity keeps every component, in order.
push_all_lem :
    (c : Errno) (acc xs : List ℕ)
    → length acc + length xs ≤ key_segs
    → push_all c acc xs ≡ ok (acc ++ xs)
unfolding push_all
push_all_lem c acc [] h = rw append-nil
push_all_lem c acc (x ∷ xs) h =
    let room : ltb (length acc) key_segs ≡ true = ground arith in
    let rest : push_all c (acc ++ x ∷ []) xs ≡ ok ((acc ++ x ∷ []) ++ xs) =
      push_all_lem c (acc ++ x ∷ []) xs (omega (arith, length-append acc (x ∷ []))) in
    rw room (rest ∙ ap ok (append_assoc acc (x ∷ []) xs))

pub length-store : (slots : List ℕ) (k : Key) → length (store slots k) ≡ length slots
unfolding store
length-store [] k = refl
length-store (x ∷ slots) [] = refl
length-store (x ∷ slots) (y ∷ k) = ap suc (length-store slots k)

pub take-store :
    (slots : List ℕ) (k : Key) → length k ≤ length slots → take (length k) (store slots k) ≡ k
unfolding store
take-store [] [] h = refl
take-store [] (y ∷ k) h = absurd (omega arith)
take-store (x ∷ slots) [] h = refl
take-store (x ∷ slots) (y ∷ k) h = ap (λ r. y ∷ r) (take-store slots k (omega arith))

-- What is documented of `mallctlnametomib`: a translation changes nothing, and the meaning of a name
-- does not change with the state.
pub record IsStable {W : Type 0} (s : System W) : Type 0 where
  pub read_only : (name : List ℕ) (cap : ℕ) (w : W) → (s.mallctlnametomib name cap w).1 ≡ w
  pub fixed :
      (name : List ℕ) (cap : ℕ) (v w : W)
      → (s.mallctlnametomib name cap v).0 ≡ (s.mallctlnametomib name cap w).0

module _ {W : Type 0} (s : System W) where
  -- A static is empty, or it holds the key that its name translates to.
  abbrev pub IsSound : String → Cache → Type 0
  IsSound name c =
      (length c.segments ≡ key_segs)
      × ((c.len ≡ 0) ⊎ ((p : Process W) → (mibs s (codes name) p).0 ≡ ok (take c.len c.segments)))

  abbrev pub IsCoherent : Process W → Type 0
  IsCoherent p = (name : String) → IsSound name (p.caches name)

  mibs-world : IsStable s → (bytes : List ℕ) (p : Process W) → (mibs s bytes p).1.world ≡ p.world
  unfolding mibs checked_key into_result invalid_argument from_code
  mibs-world st bytes p = ground (arith, st.read_only (name_buf bytes) key_segs p.world)

  checked_key-fixed :
      (n : ℕ) (t : Translation) (p q : Process W)
      → (checked_key s n t p).0 ≡ (checked_key s n t q).0
  unfolding checked_key into_result invalid_argument from_code
  checked_key-fixed n t p q = ground arith

  pub mibs-fixed :
      IsStable s → (bytes : List ℕ) (p q : Process W) → (mibs s bytes p).0 ≡ (mibs s bytes q).0
  unfolding mibs
  mibs-fixed st bytes p q = elim (Bool-cases (is_rejected bytes)) [
    | inl bad ↦ rw bad refl
    | inr good ↦
        (let n = split_count bytes in
          let (t, w) = s.mallctlnametomib (name_buf bytes) key_segs p.world in
          let (u, v) = s.mallctlnametomib (name_buf bytes) key_segs q.world in
          rw good (
            checked_key-fixed n t (record p { world = w }) (record q { world = v })
            ∙ ap (λ r. (checked_key s n r (record q { world = v })).0)
                (st.fixed (name_buf bytes) key_segs p.world q.world)))
  ]

  pub load_lem :
      (c : Cache) → length c.segments ≡ key_segs → load s.errno c c.len ≡ ok (take c.len c.segments)
  unfolding load
  load_lem c h =
      push_all_lem s.errno [] (take c.len c.segments) (omega (arith, length-take c.len c.segments))

  -- The cache that `publish` leaves in the static of its name.
  abbrev published : Cache → Key → Cache
  published c k = record { len = length k; segments = store c.segments k }

  published-IsSound :
      IsStable s
      → (name : String) (c : Cache) (k : Key) (p : Process W) → length c.segments ≡ key_segs
      → (mibs s (codes name) p).0 ≡ ok k
      → IsSound name (published c k)
  published-IsSound st name c k p h e =
      let fits = (length-mibs s (codes name) p e).1 in
      (
        length-store c.segments k ∙ h,
        inr λ q.
            mibs-fixed st (codes name) q p
            ∙ e
            ∙ ap ok (sym (take-store c.segments k (omega arith))),
      )

  publish-IsCoherent :
      IsStable s
      → (name : String) (k : Key) (p q : Process W) → IsCoherent p
      → (mibs s (codes name) q).0 ≡ ok k
      → IsCoherent (publish s name k p).1
  unfolding publish
  publish-IsCoherent st name k p q h e other = elim (Bool-cases (str_eq name other)) [
    | inl same ↦ rw same (
        subst (λ n. IsSound n (published (p.caches name) k)) ((eq_iff name other).0 same)
          (published-IsSound st name (p.caches name) k q (h name).0 e))
    | inr differs ↦ rw differs (h other)
  ]

  mibs-state : IsStable s → (bytes : List ℕ) (p : Process W) → (mibs s bytes p).1 ≡ p
  mibs-state st bytes p =
      λ i. record { world = mibs-world st bytes p i; caches = caches-mibs s bytes p i }

  -- What the answer of an accessor is held to.
  abbrev Answers : String → Process W → Outcome Key × Process W → Type 0
  Answers name p (r, p') = (r ≡ (mibs s (codes name) p).0) × (p'.world ≡ p.world) × IsCoherent p'

  cached_answer :
      (name : String) (p : Process W)
      → IsCoherent p
      → ltb 0 (p.caches name).len ≡ true
      → load s.errno (p.caches name) (p.caches name).len ≡ (mibs s (codes name) p).0
  cached_answer name p h full = elim (h name).1 [
    | inl empty ↦ absurd (ground arith)
    | inr sound ↦ load_lem (p.caches name) (h name).0 ∙ sym (sound p)
  ]

  first_answer :
      IsStable s
      → (name : String) (p : Process W) → IsCoherent p
      → (r : Outcome Key) → (mibs s (codes name) p).0 ≡ r
      → Answers name p (((λ _. (r, p)) >>= λ k. publish s name k >> pure k) p)
  unfolding publish
  first_answer st name p h (ok k) e = (sym e, refl, publish-IsCoherent st name k p p h e)
  first_answer st name p h (err x) e = (sym e, refl, h)
  first_answer st name p h panic e = (sym e, refl, h)

  translate_answer :
      IsStable s
      → (name : String) (p : Process W) → IsCoherent p
      → Answers name p (translate s name p)
  unfolding translate
  translate_answer st name p h =
      let r = (mibs s (codes name) p).0 in
      let state : mibs s (codes name) p ≡ (r, p) = λ i. (r, mibs-state st (codes name) p i) in
      subst (λ m. Answers name p (((λ _. m) >>= λ k. publish s name k >> pure k) p)) (sym state)
        (first_answer st name p h r refl)

  -- From a coherent state an accessor answers exactly as a fresh translation of its name, whether
  -- its static was empty or full, leaves jemalloc's state alone, and keeps the state coherent.
  pub key_transparent :
      IsStable s
      → (name : String) (p : Process W) → IsCoherent p
      → ((key s name p).0 ≡ (mibs s (codes name) p).0)
        × ((key s name p).1.world ≡ p.world)
        × IsCoherent (key s name p).1
  unfolding key
  key_transparent st name p h = elim (Bool-cases (ltb 0 (p.caches name).len)) [
    | inl full ↦ rw full (cached_answer name p h full, refl, h)
    | inr empty ↦ rw empty (translate_answer st name p h)
  ]

  -- Before any control has been used every static is empty, whatever jemalloc's state is.
  pub initial-IsCoherent : (w : W) → IsCoherent (record { world = w; caches = λ _. new })
  unfolding new
  initial-IsCoherent w name = (refl, inl refl)
