-- ===== src/Ctl/Coverage.antt =====
-- Concurrent callers of a key accessor on a weak memory: what a caller has seen is always there to be
-- read, so that a load always has a store that it may return.
pub mod Steps
pub mod Moves
use mathlib.Core.Option.{some-injective}
use jevmalloc.Prelude.{
  ℕ, zero, suc, ◌+◌, ◌≤◌, ◌<◌, ◌≡◌, inl, inr, refl, sym, Bool, true, false, ◌&&◌, not, Option, none,
  some, List, [], ◌∷◌, arith, All, Bool-cases, Option-cases, ltb, leb, ◌==◌, ==_iff, length,
  get_elem?, if◌then◌else◌, max,
}
use jevmalloc.System.{Errno, Outcome, ok}
use jevmalloc.Ctl.Raw.{Key, key_segs}
use jevmalloc.Ctl.Key.Threads.{Phase, before_load, storing, reading, finished}
use jevmalloc.Ctl.Key.Relaxed.{
  View, join, see, Store, Publication, Memory, Caller, recent, recent_len, is_free, is_free_len,
  relaxed_step,
}
use jevmalloc.Ctl.Visibility.{All-get, recent_lem, recent_len_lem}

module _ {A : Type 0} (time : A → ℕ) where
  abbrev pub latest : List A → ℕ
  latest [] = 0
  latest (s ∷ rest) = max (time s) (latest rest)

  pub get-latest : (xs : List A) (n : ℕ) {s : A} → get_elem? xs n ≡ some s → time s ≤ latest xs
  get-latest [] n e = absurd (grind arith)
  get-latest (x ∷ xs) zero {s} e = rw (sym (some-injective x s e)) (omega arith)
  get-latest (x ∷ xs) (suc n) e = omega (arith, get-latest xs n e)

  -- There is a store that is as late as any other.
  pub record Latest (xs : List A) : Type 0 where
    pub pick : ℕ
    pub store : A
    pub found : get_elem? xs pick ≡ some store
    pub last : latest xs ≤ time store

  pub find-Latest : (xs : List A) → 0 < length xs → Latest xs
  find-Latest [] nonempty = absurd (omega arith)
  find-Latest (x ∷ []) nonempty = record { pick = 0; store = x; found = refl; last = omega arith }
  find-Latest (x ∷ y ∷ xs) nonempty =
      let later = find-Latest (y ∷ xs) (omega arith) in
      elim (Bool-cases (leb (time x) (time later.store))) [
        | inl less ↦ record {
          pick = suc later.pick;
          store = later.store;
          found = later.found;
          last = ground (arith, later.last);
        }
        | inr more ↦ record { pick = 0; store = x; found = refl; last = ground (arith, later.last) }
      ]

abbrev pub latest_store : List Store → ℕ
latest_store = latest (λ s. s.time)

abbrev pub latest_len : List Publication → ℕ
latest_len = latest (λ p. p.time)

pub latest-is_free : (xs : List Store) (n : ℕ) → latest_store xs < n → is_free n xs ≡ true
latest-is_free [] n below = refl
latest-is_free (x ∷ xs) n below = ground (arith, latest-is_free xs n)

pub latest-is_free_len :
    (xs : List Publication) (n : ℕ) → latest_len xs < n → is_free_len n xs ≡ true
latest-is_free_len [] n below = refl
latest-is_free_len (x ∷ xs) n below = ground (arith, latest-is_free_len xs n)

-- What has been seen is not past what there is.
abbrev pub IsCovered : Memory → View → Type 0
IsCovered m v = (j : ℕ) → v j ≤ latest_store (m.segments j)

pub record IsStocked (m : Memory) : Type 0 where
  pub views : All (λ p. IsCovered m p.view) m.lens
  pub some_segment : (j : ℕ) → 0 < length (m.segments j)
  pub some_len : 0 < length m.lens

pub record Grows (m m' : Memory) : Type 0 where
  pub lens : latest_len m.lens ≤ latest_len m'.lens
  pub segments : (j : ℕ) → latest_store (m.segments j) ≤ latest_store (m'.segments j)

pub grow-IsCovered : (m m' : Memory) (v : View) → Grows m m' → IsCovered m v → IsCovered m' v
grow-IsCovered m m' v g h j = omega (arith, g.segments j, h j)

pub grow-views :
    (m m' : Memory) (ps : List Publication)
    → Grows m m'
    → All (λ p. IsCovered m p.view) ps
    → All (λ p. IsCovered m' p.view) ps
grow-views m m' [] g h = tt
grow-views m m' (p ∷ ps) g h = (grow-IsCovered m m' p.view g h.0, grow-views m m' ps g h.1)

-- What a step leaves of this.
pub record Advances (m : Memory) (next : Memory × Caller) : Type 0 where
  pub grows : Grows m next.0
  pub stocked : IsStocked next.0
  pub covered : IsCovered next.0 next.1.view
  pub len_covered : next.1.len_view ≤ latest_len next.0.lens

pub stay-Advances :
    (m : Memory) (a : Caller)
    → IsStocked m
    → IsCovered m a.view
    → a.len_view ≤ latest_len m.lens
    → Advances m (m, a)
stay-Advances m a stocked covered len_covered = record {
  grows = record { lens = omega arith; segments = λ j. omega arith };
  stocked = stocked;
  covered = covered;
  len_covered = len_covered;
}
