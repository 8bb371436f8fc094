-- ===== src/Ctl/Visibility/Steps.antt =====
-- Each step of a caller on the weak memory keeps what is true of the memory and of the caller.

use jevmalloc.Prelude.{
  ℕ, ◌≤◌, ◌<◌, ◌≡◌, inl, inr, refl, ap, ◌∙◌, true, false, ◌&&◌, arith, Bool-cases, Option-cases,
  ltb, length, take, get_elem?, get_elem?-some_lt, get_elem?-none_le, take_all,
}
use jevmalloc.System.{Errno, Outcome, ok}
use jevmalloc.Ctl.Raw.{Key, key_segs}
use jevmalloc.Ctl.Key.Threads.{Phase, before_load, storing, reading, finished, translated}
use jevmalloc.Ctl.Key.Relaxed.{View, Memory, recent, recent_len, is_free, is_free_len, relaxed_step}
use jevmalloc.Ctl.Visibility.{
  All-get, recent_lem, recent_len_lem, see-past, IsComponent, IsPublication, IsWhole, IsSound,
  Keeps, read-IsSound, added-IsComponent,
}

module _ (k : Key) (c : Errno) where
  reading-Keeps :
      (m : Memory) (v : View) (seen : ℕ) (key : Key) (n : ℕ)
      → length k ≤ key_segs
      → IsWhole k m
      → IsSound k v (reading (length k) key)
      → Keeps k (relaxed_step c (ok k) m v seen (reading (length k) key) n)
  unfolding relaxed_step
  reading-Keeps m v seen key n fits w sound =
      let (_, past, bound, prefix) = sound in
      elim (Bool-cases (ltb (length key) (length k))) [
        | inr last ↦
            (let whole_key : length key ≡ length k = ground arith in
              rw last (w, ap ok (prefix ∙ ap (λ n. take n k) whole_key ∙ take_all k)))
        | inl more ↦
            (let room : ltb (length key) key_segs ≡ true = ground arith in
              rw more (
                rw room
                  (elim (Option-cases
                    (recent (v (length key)) (get_elem? (m.segments (length key)) n))) [
                      | inl stay ↦ rw stay (w, sound)
                      | inr (s, e) ↦
                          (let (found, new) = recent_lem _ _ s e in
                            let past_zero : 1 ≤ s.time =
                              omega (arith, past (length key) (ground arith)) in
                            let component =
                              All-get (IsComponent k (length key)) _ n s (w.segments (length key))
                                found past_zero in
                            rw e (rw room (w, read-IsSound k v key s component past_zero sound)))
                    ])))
      ]

  storing-Keeps :
      (m : Memory) (v : View) (seen i n : ℕ)
      → IsWhole k m
      → IsSound k v (storing k i)
      → Keeps k (relaxed_step c (ok k) m v seen (storing k i) n)
  unfolding relaxed_step
  storing-Keeps m v seen i n w sound = elim (Option-cases (get_elem? k i)) [
    | inl at_end ↦ elim (Bool-cases (ltb seen n && is_free_len n m.lens)) [
      | inr taken ↦ rw (at_end, relaxed_step) (rw taken (w, sound))
      | inl free ↦
          rw (at_end, relaxed_step)
            (rw free (
              record {
                segments = w.segments;
                lens = (
                  inr (refl, λ j below. sound.2 j (omega (arith, get_elem?-none_le k i at_end))),
                  w.lens,
                );
              },
              refl,
            ))
    ]
    | inr (x, e) ↦ elim (Bool-cases (ltb (v i) n && is_free n (m.segments i))) [
      | inr taken ↦ rw (e, relaxed_step) (rw taken (w, sound))
      | inl free ↦
          rw (e, relaxed_step)
            (rw free (
              record { segments = λ j. added-IsComponent k m w i j n e; lens = w.lens },
              (
                refl,
                get_elem?-some_lt k i e,
                λ j below. see-past v i n j (ground arith) (λ other. sound.2 j (ground arith)),
              ),
            ))
    ]
  ]

  loading-Keeps :
      (m : Memory) (v : View) (seen n : ℕ)
      → 0 < length k
      → IsWhole k m
      → Keeps k (relaxed_step c (ok k) m v seen before_load n)
  unfolding relaxed_step translated
  loading-Keeps m v seen n nonempty w = elim (Option-cases (recent_len seen (get_elem? m.lens n))) [
    | inl stay ↦ rw (stay, relaxed_step) (w, tt)
    | inr (p, e) ↦ elim (All-get (IsPublication k) m.lens n p w.lens (recent_len_lem seen _ p e)) [
      | inl empty ↦
          (let z : ltb 0 p.len ≡ false = ground arith in
            rw (e, relaxed_step) (rw z (w, (refl, omega arith, λ j below. absurd (omega arith)))))
      | inr (full, past) ↦
          (let z : ltb 0 p.len ≡ true = ground arith in
            rw (e, relaxed_step)
              (rw z (w, (full, (λ j below. omega (arith, past j below)), omega arith, refl))))
    ]
  ]

  finished-Keeps :
      (m : Memory) (v : View) (seen n : ℕ) (r : Outcome Key)
      → IsWhole k m
      → r ≡ ok k
      → Keeps k (relaxed_step c (ok k) m v seen (finished r) n)
  unfolding relaxed_step
  finished-Keeps m v seen n r w sound = (w, sound)

  pub relaxed_step-Keeps :
      (m : Memory) (v : View) (seen : ℕ) (phase : Phase) (n : ℕ)
      → 0 < length k
      → length k ≤ key_segs
      → IsWhole k m
      → IsSound k v phase
      → Keeps k (relaxed_step c (ok k) m v seen phase n)
  relaxed_step-Keeps m v seen before_load n nonempty fits w sound =
      loading-Keeps m v seen n nonempty w
  relaxed_step-Keeps m v seen (storing k' i) n nonempty fits w (same, bound, past) =
      rw same (storing-Keeps m v seen i n w (refl, bound, past))
  relaxed_step-Keeps m v seen (reading len key) n nonempty fits w (same, past, bound, prefix) =
      rw same (reading-Keeps m v seen key n fits w (refl, past, bound, prefix))
  relaxed_step-Keeps m v seen (finished r) n nonempty fits w sound =
      finished-Keeps m v seen n r w sound
