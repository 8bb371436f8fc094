-- ===== src/Ctl/Coverage/Steps.antt =====
-- Each step of a caller on the weak memory keeps what it has seen within what there is.
use jevmalloc.Prelude.{
  ℕ, ◌≤◌, ◌≡◌, inl, inr, refl, true, ◌&&◌, ◌∷◌, arith, Bool-cases, Option-cases, ltb, ◌==◌, ==_iff,
  length, get_elem?, if◌then◌else◌,
}
use jevmalloc.System.{Errno, Outcome}
use jevmalloc.Ctl.Raw.{Key, key_segs}
use jevmalloc.Ctl.Key.Threads.{Phase, before_load, storing, reading, finished}
use jevmalloc.Ctl.Key.Relaxed.{
  View, see, Store, Memory, recent, recent_len, is_free, is_free_len, relaxed_step,
}
use jevmalloc.Ctl.Visibility.{All-get, recent_lem, recent_len_lem}
use jevmalloc.Ctl.Coverage.{
  latest_store, latest_len, get-latest, IsCovered, IsStocked, Grows, grow-IsCovered, grow-views,
  Advances, stay-Advances,
}

-- A later look at one segment.
see-IsCovered :
    (m : Memory) (v : View) (i n : ℕ)
    → n ≤ latest_store (m.segments i)
    → IsCovered m v
    → IsCovered m (see v i n)
see-IsCovered m v i n below h j = elim (Bool-cases (j == i)) [
  | inl same ↦ (let here : j ≡ i = (==_iff j i).0 same in rw same (rw here below))
  | inr other ↦ rw other (h j)
]

-- A store of a segment, as `relaxed_step` adds it.
abbrev added : Memory → ℕ → Store → Memory
added m i s = record m { segments = λ j. if j == i then s ∷ m.segments j else m.segments j }

added-Grows : (m : Memory) (i : ℕ) (s : Store) → Grows m (added m i s)
added-Grows m i s = record {
  lens = omega arith;
  segments = λ j. elim (Bool-cases (j == i)) [
    | inl same ↦ rw same (omega arith)
    | inr other ↦ rw other (omega arith)
  ];
}

added-IsStocked : (m : Memory) (i : ℕ) (s : Store) → IsStocked m → IsStocked (added m i s)
added-IsStocked m i s h = record {
  views = grow-views m (added m i s) m.lens (added-Grows m i s) h.views;
  some_segment = λ j. elim (Bool-cases (j == i)) [
    | inl same ↦ rw same (omega arith)
    | inr other ↦ rw other (h.some_segment j)
  ];
  some_len = h.some_len;
}

==_self : (i : ℕ) → (i == i) ≡ true
==_self i = (==_iff i i).1 refl

module _ (c : Errno) (r : Outcome Key) (m : Memory) (v : View) (seen : ℕ) where
  module _ (stocked : IsStocked m) (covered : IsCovered m v)
      (len_covered : seen ≤ latest_len m.lens) where
    loading-Advances : (n : ℕ) → Advances m (relaxed_step c r m v seen before_load n)
    unfolding relaxed_step
    loading-Advances n = elim (Option-cases (recent_len seen (get_elem? m.lens n))) [
      | inl none_recent ↦
          rw (none_recent, relaxed_step) (stay-Advances m _ stocked covered len_covered)
      | inr (p, e) ↦
          (let found = recent_len_lem seen _ p e in
            let view = All-get (λ p. IsCovered m p.view) m.lens n p stocked.views found in
            rw (e, relaxed_step)
              (stay-Advances m _ stocked (λ j. omega (arith, covered j, view j))
                (get-latest (λ p. p.time) m.lens n found)))
    ]

    storing-Advances : (k : Key) (i n : ℕ) → Advances m (relaxed_step c r m v seen (storing k i) n)
    unfolding relaxed_step
    storing-Advances k i n = elim (Option-cases (get_elem? k i)) [
      | inl at_end ↦ elim (Bool-cases (ltb seen n && is_free_len n m.lens)) [
        | inr taken ↦
            rw (at_end, relaxed_step) (rw taken (stay-Advances m _ stocked covered len_covered))
        | inl free ↦
            rw (at_end, relaxed_step)
              (rw free record {
                grows = record { lens = omega arith; segments = λ j. omega arith };
                stocked = record {
                  views = (covered, stocked.views);
                  some_segment = stocked.some_segment;
                  some_len = omega arith;
                };
                covered = covered;
                len_covered = omega arith;
              })
      ]
      | inr (x, e) ↦ elim (Bool-cases (ltb (v i) n && is_free n (m.segments i))) [
        | inr taken ↦
            rw (e, relaxed_step) (rw taken (stay-Advances m _ stocked covered len_covered))
        | inl free ↦
            (let s : Store = record { time = n; value = x } in
              rw (e, relaxed_step)
                (rw free record {
                  grows = added-Grows m i s;
                  stocked = added-IsStocked m i s stocked;
                  covered =
                      see-IsCovered (added m i s) v i n (rw (==_self i) (omega arith))
                        (grow-IsCovered m (added m i s) v (added-Grows m i s) covered);
                  len_covered = len_covered;
                }))
      ]
    ]

    reading-Advances :
        (len : ℕ) (k : Key) (n : ℕ) → Advances m (relaxed_step c r m v seen (reading len k) n)
    unfolding relaxed_step
    reading-Advances len k n = elim (Bool-cases (ltb (length k) len && ltb (length k) key_segs)) [
      | inr last ↦ rw last (stay-Advances m _ stocked covered len_covered)
      | inl more ↦
          rw more
            (elim (Option-cases (recent (v (length k)) (get_elem? (m.segments (length k)) n))) [
              | inl none_recent ↦ rw none_recent (stay-Advances m _ stocked covered len_covered)
              | inr (s, e) ↦
                  (let (found, _) = recent_lem _ _ s e in
                    rw e (
                      stay-Advances m _ stocked
                        (see-IsCovered m v (length k) s.time
                          (get-latest (λ s. s.time) (m.segments (length k)) n found) covered)
                        len_covered))
            ])
    ]

    pub relaxed_step-Advances :
        (phase : Phase) (n : ℕ) → Advances m (relaxed_step c r m v seen phase n)
    unfolding relaxed_step
    relaxed_step-Advances before_load n = loading-Advances n
    relaxed_step-Advances (storing k i) n = storing-Advances k i n
    relaxed_step-Advances (reading len k) n = reading-Advances len k n
    relaxed_step-Advances (finished outcome) n = stay-Advances m _ stocked covered len_covered
