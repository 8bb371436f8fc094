-- ===== src/Ctl/Coverage/Moves.antt =====
-- A caller on the weak memory that has not returned always has a step that brings it nearer.
use jevmalloc.Prelude.{
  ℕ, suc, ◌≤◌, ◌<◌, ◌≡◌, inl, inr, true, [], ◌∷◌, arith, Bool-cases, Option-cases, ltb, leb, length,
  length-append, get_elem?, get_elem?-some_lt,
}
use jevmalloc.System.{Errno, ok}
use jevmalloc.Ctl.Raw.{Key, key_segs}
use jevmalloc.Ctl.Key.Threads.{Phase, before_load, storing, reading, finished, translated}
use jevmalloc.Ctl.Key.Relaxed.{View, Memory, recent, recent_len, is_free, is_free_len, relaxed_step}
use jevmalloc.Ctl.Interleaving.{left}
use jevmalloc.Ctl.Visibility.{IsSound}
use jevmalloc.Ctl.Coverage.{
  latest_store, latest_len, find-Latest, latest-is_free, latest-is_free_len, IsCovered, IsStocked,
}

module _ (k : Key) (c : Errno) (m : Memory) (v : View) (seen : ℕ) where
  pub record Moves (phase : Phase) : Type 0 where
    pub pick : ℕ
    pub fewer : left c k (relaxed_step c (ok k) m v seen phase pick).1.phase < left c k phase

  module _ (stocked : IsStocked m) (covered : IsCovered m v)
      (len_covered : seen ≤ latest_len m.lens) where
    loading-Moves : Moves before_load
    unfolding relaxed_step recent_len translated
    loading-Moves =
        let l = find-Latest (λ p. p.time) m.lens stocked.some_len in
        let new : leb seen l.store.time ≡ true = ground (arith, l.last) in
        record {
          pick = l.pick;
          fewer =
              rw (l.found, relaxed_step)
                (rw new (elim (Bool-cases (ltb 0 l.store.len)) [
                  | inl full ↦ rw full (omega arith)
                  | inr empty ↦ rw empty (omega arith)
                ]));
        }

    storing-Moves : (i : ℕ) → i ≤ length k → Moves (storing k i)
    unfolding relaxed_step
    storing-Moves i bound = elim (Option-cases (get_elem? k i)) [
      | inl at_end ↦
          (let fresh = suc (latest_len m.lens) in
            let later : ltb seen fresh ≡ true = ground arith in
            let free : is_free_len fresh m.lens ≡ true =
              latest-is_free_len m.lens fresh (omega arith) in
            record {
              pick = fresh;
              fewer = rw (at_end, relaxed_step) (rw later (rw free (omega arith)));
            })
      | inr (x, e) ↦
          (let fresh = suc (latest_store (m.segments i)) in
            let later : ltb (v i) fresh ≡ true = ground (arith, covered i) in
            let free : is_free fresh (m.segments i) ≡ true =
              latest-is_free (m.segments i) fresh (omega arith) in
            record {
              pick = fresh;
              fewer =
                  rw (e, relaxed_step)
                    (rw later (rw free (omega (arith, get_elem?-some_lt k i e))));
            })
    ]

    reading-Moves :
        (key : Key) → length k ≤ key_segs → length key ≤ length k → Moves (reading (length k) key)
    unfolding relaxed_step recent
    reading-Moves key fits bound = elim (Bool-cases (ltb (length key) (length k))) [
      | inr last ↦ record { pick = 0; fewer = rw last (omega arith) }
      | inl more ↦
          (let i = length key in
            let room : ltb i key_segs ≡ true = ground arith in
            let l = find-Latest (λ s. s.time) (m.segments i) (stocked.some_segment i) in
            let new : leb (v i) l.store.time ≡ true = ground (arith, l.last, covered i) in
            record {
              pick = l.pick;
              fewer = rw more (
                  rw room (
                    rw l.found
                      (rw new (rw room (omega (arith, length-append key (l.store.value ∷ [])))))));
            })
    ]

    pub sound-Moves :
        (phase : Phase) → length k ≤ key_segs → IsSound k v phase → 0 < left c k phase → Moves phase
    sound-Moves before_load fits sound more = loading-Moves
    sound-Moves (storing k' i) fits (same, bound, past) more = rw same (storing-Moves i bound)
    sound-Moves (reading len key) fits (same, past, bound, prefix) more =
        rw same (reading-Moves key fits bound)
    sound-Moves (finished r) fits sound more = absurd (omega arith)
