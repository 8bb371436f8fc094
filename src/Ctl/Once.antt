-- ===== src/Ctl/Once.antt =====
-- A control name is translated at most once: after a success the accessor only reads its static.

use text.Mathlib.TextPositions.{eq_refl}
use jevmalloc.Prelude.{
  ℕ, ◌≤◌, ◌<◌, ◌≡◌, refl, ap, ◌∙◌, inl, inr, true, String, List, [], ◌∷◌, ltb, length, take, codes,
  arith, Bool-cases,
}
use jevmalloc.System.{
  System, Process, Outcome, ok, err, panic, pure, ◌>>◌, bind_ok, bind_err, bind_panic,
}
use jevmalloc.Ctl.Raw.{Key, key_segs, split_count, mibs}
use jevmalloc.Ctl.Names.{length-mibs, caches-mibs}
use jevmalloc.Ctl.Key.{publish, translate, key}
use jevmalloc.Ctl.Caching.{IsCoherent, length-store, take-store, load_lem}

split_count-pos : (bytes : List ℕ) → 0 < split_count bytes
unfolding split_count
split_count-pos [] = omega arith
split_count-pos (c ∷ rest) = omega (arith, split_count-pos rest)

module _ {W : Type 0} (s : System W) (name : String) where
  -- The static of the name holds this key.
  abbrev IsCached : Key → Process W → Type 0
  IsCached k q =
      (0 < length k)
      × (length (q.caches name).segments ≡ key_segs)
      × ((q.caches name).len ≡ length k)
      × (take (length k) (q.caches name).segments ≡ k)

  cached_lem : (k : Key) (q : Process W) → IsCached k q → key s name q ≡ (ok k, q)
  unfolding key
  cached_lem k q (nonempty, capacity, len, contents) =
      let full : ltb 0 (q.caches name).len ≡ true = ground arith in
      rw full (
        ap (λ r. (r, q))
          (load_lem s (q.caches name) capacity
            ∙ ap (λ n. ok (take n (q.caches name).segments)) len
            ∙ ap ok contents))

  publish-IsCached :
      (k : Key) (q : Process W)
      → 0 < length k
      → length k ≤ key_segs
      → length (q.caches name).segments ≡ key_segs
      → IsCached k (publish s name k q).1
  unfolding publish
  publish-IsCached k q nonempty fits capacity = rw (eq_refl name) (
    nonempty,
    length-store (q.caches name).segments k ∙ capacity,
    refl,
    take-store (q.caches name).segments k (omega arith),
  )

  translate_lem :
      (k : Key) (p : Process W)
      → (mibs s (codes name) p).0 ≡ ok k
      → translate s name p ≡ (ok k, (publish s name k (mibs s (codes name) p).1).1)
  unfolding translate publish
  translate_lem k p e = bind_ok (mibs s (codes name)) (λ k'. publish s name k' >> pure k') p e

  translate_again :
      (p : Process W) {k : Key}
      → IsCoherent s p
      → (r : Outcome Key) → (mibs s (codes name) p).0 ≡ r
      → (translate s name p).0 ≡ ok k
      → key s name (translate s name p).1 ≡ (ok k, (translate s name p).1)
  unfolding translate
  translate_again p {k = k} c (ok k') e h =
      let (count, fits) = length-mibs s (codes name) p e in
      let positive = split_count-pos (codes name) in
      let q = (mibs s (codes name) p).1 in
      let capacity : length (q.caches name).segments ≡ key_segs =
        rw (caches-mibs s (codes name) p) (c name).0 in
      let held = publish-IsCached k' q (omega arith) fits capacity in
      let same : k' ≡ k = ground (arith, translate_lem k' p e) in
      rw (translate_lem k' p e) (rw (← same) (cached_lem k' (publish s name k' q).1 held))
  translate_again p c (err x) e h =
      absurd
        (ground (arith, bind_err (mibs s (codes name)) (λ k'. publish s name k' >> pure k') p e))
  translate_again p c panic e h =
      absurd
        (ground (arith, bind_panic (mibs s (codes name)) (λ k'. publish s name k' >> pure k') p e))

  -- Once an accessor has returned a key from a coherent state, calling it again returns the same key
  -- and leaves the whole process as it is: jemalloc is not asked a second time.
  pub key_again :
      (p : Process W) {k : Key}
      → IsCoherent s p
      → (key s name p).0 ≡ ok k
      → key s name (key s name p).1 ≡ (ok k, (key s name p).1)
  unfolding key
  key_again p c h = elim (Bool-cases (ltb 0 (p.caches name).len)) [
    | inl full ↦ (let loaded = rw full at h in rw full (rw full (ap (λ r. (r, p)) loaded)))
    | inr empty ↦
        (let returned = rw empty at h in
          rw empty (translate_again p c (mibs s (codes name) p).0 refl returned))
  ]
