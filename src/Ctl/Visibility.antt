-- ===== src/Ctl/Visibility.antt =====
-- Concurrent callers of a key accessor on a weak memory: what the release store publishes.
pub mod Steps
use mathlib.Core.Path.{subst}
use mathlib.Core.Option.{some-injective}
use jevmalloc.Prelude.{
  ℕ, zero, suc, ◌+◌, ◌≤◌, ◌<◌, ◌≡◌, ◌⊎◌, inl, inr, refl, sym, ap, ◌∙◌, Bool, true, false, ◌&&◌,
  Option, none, some, List, [], ◌∷◌, ◌++◌, arith, All, Bool-cases, Option-cases, ltb, leb, ◌==◌,
  ==_iff, length, take, get_elem?, if◌then◌else◌, length-append, get_elem?-some_lt,
  get_elem?-none_le, take-suc, take_all, max,
}
use jevmalloc.System.{Errno, Outcome, ok}
use jevmalloc.Ctl.Raw.{Key, key_segs}
use jevmalloc.Ctl.Key.Threads.{Phase, before_load, storing, reading, finished, translated}
use jevmalloc.Ctl.Key.Relaxed.{
  View, join, see, Store, Publication, Memory, Caller, recent, recent_len, is_free, is_free_len,
  pushed, relaxed_step,
}

pub All-get :
    {A : Type 0} (P : A → Type 0) (xs : List A) (n : ℕ) (x : A)
    → All P xs
    → get_elem? xs n ≡ some x
    → P x
All-get P [] n x all e = absurd (ground arith)
All-get P (y ∷ xs) zero x all e = subst P (some-injective y x e) all.0
All-get P (y ∷ xs) (suc n) x all e = All-get P xs n x all.1 e

pub recent_lem :
    (seen : ℕ) (o : Option Store) (s : Store)
    → recent seen o ≡ some s
    → (o ≡ some s) × (seen ≤ s.time)
unfolding recent
recent_lem seen none s e = absurd (grind arith)
recent_lem seen (some s') s e = elim (Bool-cases (leb seen s'.time)) [
  | inl new ↦
      (let same : some s' ≡ some s = ground arith in
        (same, subst (λ t. seen ≤ t.time) (some-injective s' s same) (ground arith)))
  | inr old ↦ absurd (grind arith)
]

pub recent_len_lem :
    (seen : ℕ) (o : Option Publication) (p : Publication) → recent_len seen o ≡ some p → o ≡ some p
unfolding recent_len
recent_len_lem seen none p e = absurd (grind arith)
recent_len_lem seen (some p') p e = elim (Bool-cases (leb seen p'.time)) [
  | inl new ↦ ground arith
  | inr old ↦ absurd (grind arith)
]

pub see-past : (v : View) (i n j : ℕ) → 1 ≤ n → ((j == i) ≡ false → 1 ≤ v j) → 1 ≤ see v i n j
see-past v i n j new old = elim (Bool-cases (j == i)) [
  | inl same ↦ rw same new
  | inr other ↦ rw other (old other)
]

module _ (k : Key) where
  -- Every store of a segment, past the initial zero, holds the component of the key.
  abbrev pub IsComponent : ℕ → Store → Type 0
  IsComponent j s = 1 ≤ s.time → get_elem? k j ≡ some s.value

  -- Past the initial zeroes of the segments of the key.
  abbrev pub IsPast : View → Type 0
  IsPast v = (j : ℕ) → j < length k → 1 ≤ v j

  abbrev pub IsPublication : Publication → Type 0
  IsPublication p = (p.len ≡ 0) ⊎ ((p.len ≡ length k) × IsPast p.view)

  pub record IsWhole (m : Memory) : Type 0 where
    pub segments : (j : ℕ) → All (IsComponent j) (m.segments j)
    pub lens : All IsPublication m.lens

  -- What is true of a caller at each point, given what it has seen.
  abbrev pub IsSound : View → Phase → Type 0
  IsSound v before_load = Unit
  IsSound v (storing k' i) = (k' ≡ k) × (i ≤ length k) × ((j : ℕ) → j < i → 1 ≤ v j)
  IsSound v (reading len key) =
      (len ≡ length k) × IsPast v × (length key ≤ length k) × (key ≡ take (length key) k)
  IsSound v (finished r) = r ≡ ok k

  abbrev pub Keeps : Memory × Caller → Type 0
  Keeps (m, a) = IsWhole m × IsSound a.view a.phase

  -- A load of the next component.
  pub read-IsSound :
      (v : View) (key : Key) (s : Store)
      → get_elem? k (length key) ≡ some s.value
      → 1 ≤ s.time
      → IsSound v (reading (length k) key)
      → IsSound (see v (length key) s.time) (reading (length k) (key ++ s.value ∷ []))
  read-IsSound v key s e new (_, past, bound, prefix) =
      let longer : length (key ++ s.value ∷ []) ≡ suc (length key) =
        omega (arith, length-append key (s.value ∷ [])) in
      (
        refl,
        (λ j below. see-past v (length key) s.time j new (λ _. past j below)),
        rw longer (ground (arith, get_elem?-some_lt k (length key) e)),
        rw longer (ap (λ t. t ++ s.value ∷ []) prefix ∙ sym (take-suc k (length key) e)),
      )

  -- A store of a component among the stores of its segment.
  pub added-IsComponent :
      (m : Memory) (w : IsWhole m) (i j n : ℕ) {x : ℕ}
      → get_elem? k i ≡ some x
      → All
          (IsComponent j)
          (if j == i then record { time = n; value = x } ∷ m.segments j else m.segments j)
  added-IsComponent m w i j n e = elim (Bool-cases (j == i)) [
    | inr other ↦ rw other (w.segments j)
    | inl same ↦
        (let here : j ≡ i = (==_iff j i).0 same in rw same ((λ _. rw here e), w.segments j))
  ]
