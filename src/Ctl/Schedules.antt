-- ===== src/Ctl/Schedules.antt =====
-- Any interleaving of concurrent callers of a key accessor: no partial key, and no waiting.
use jevmalloc.Prelude.{
  ℕ, ◌+◌, ◌-◌, ◌≤◌, ◌<◌, ◌≡◌, ◌⊎◌, inl, inr, refl, ap, ◌∙◌, List, [], ◌∷◌, arith, Bool-cases, ◌==◌,
  ==_iff, length, take, take_agree, if◌then◌else◌,
}
use jevmalloc.System.{Errno, ok, Cache}
use jevmalloc.Ctl.Raw.{Key, key_segs}
use jevmalloc.Ctl.Key.{new}
use jevmalloc.Ctl.Key.Threads.{
  Phase, before_load, storing, reading, finished, step, Callers, advance, run,
}
use jevmalloc.Ctl.Interleaving.{HoldsAt, IsWhole, IsSoundAt, left, step-AdvancesTo}

-- How many steps of an interleaving a thread takes.
abbrev pub steps_of : ℕ → List ℕ → ℕ
steps_of thread [] = 0
steps_of thread (next ∷ rest) = (if thread == next then 1 else 0) + steps_of thread rest

-- A fresh static and callers that have not begun.
abbrev pub first_callers : Callers
first_callers = record { cache = new; phases = λ _. before_load }

module _ (c : Errno) (k : Key) where
  keeps-IsSoundAt :
      (cache cache' : Cache) (phase : Phase)
      → ((j : ℕ) → HoldsAt c k cache j → HoldsAt c k cache' j)
      → IsSoundAt c k cache phase
      → IsSoundAt c k cache' phase
  keeps-IsSoundAt cache cache' before_load keeps h = tt
  keeps-IsSoundAt cache cache' (storing k' i) keeps (same, bound, stored) =
      (same, bound, λ j below. keeps j (stored j below))
  keeps-IsSoundAt cache cache' (reading len key) keeps (same, all, bound, prefix) =
      (same, (λ j below. keeps j (all j below)), bound, prefix)
  keeps-IsSoundAt cache cache' (finished r) keeps h = h

  record IsConsistent (s : Callers) : Type 0 where
    whole : IsWhole c k s.cache
    sound : (thread : ℕ) → IsSoundAt c k s.cache (s.phases thread)

  advance_lem :
      (s : Callers) (thread : ℕ)
      → 0 < length k
      → length k ≤ key_segs
      → IsConsistent s
      → IsConsistent (advance c (ok k) s thread)
        × ((other : ℕ)
            → left c k ((advance c (ok k) s thread).phases other)
              ≤ left c k (s.phases other) - (if other == thread then 1 else 0))
  unfolding advance
  advance_lem s thread nonempty fits h =
      let moved =
        step-AdvancesTo c k s.cache (s.phases thread) nonempty fits h.whole (h.sound thread) in
      (
        record {
          whole = moved.whole;
          sound = λ other. elim (Bool-cases (other == thread)) [
            | inl same ↦ rw same moved.sound
            | inr differs ↦ rw differs (
                keeps-IsSoundAt s.cache (step c (ok k) s.cache (s.phases thread)).0 (s.phases other)
                  moved.keeps (h.sound other))
          ];
        },
        λ other. elim (Bool-cases (other == thread)) [
          | inl same ↦
              (let e : other ≡ thread = (==_iff other thread).0 same in rw same (rw e moved.fewer))
          | inr differs ↦ rw differs (omega arith)
        ],
      )

  run_lem :
      (order : List ℕ) (s : Callers)
      → 0 < length k
      → length k ≤ key_segs
      → IsConsistent s
      → IsConsistent (run c (ok k) s order)
        × ((thread : ℕ)
            → left c k ((run c (ok k) s order).phases thread)
              ≤ left c k (s.phases thread) - steps_of thread order)
  unfolding run
  run_lem [] s nonempty fits h = (h, λ thread. omega arith)
  run_lem (next ∷ rest) s nonempty fits h =
      let (h', fewer) = advance_lem s next nonempty fits h in
      let (h'', fewer') = run_lem rest (advance c (ok k) s next) nonempty fits h' in
      (h'', λ thread. omega (arith, fewer thread, fewer' thread))

  first-IsConsistent : IsConsistent first_callers
  unfolding new
  first-IsConsistent = record {
    whole = record { capacity = refl; published = inl refl };
    sound = λ thread. tt;
  }

  nothing_left :
      (cache : Cache) (phase : Phase)
      → IsSoundAt c k cache phase
      → left c k phase ≡ 0
      → phase ≡ finished (ok k)
  nothing_left cache before_load h e = absurd (omega arith)
  nothing_left cache (storing k' i) (same, bound, stored) e = absurd (omega arith)
  nothing_left cache (reading len key) (same, all, bound, prefix) e = absurd (omega arith)
  nothing_left cache (finished r) h e = ap finished h

  -- In every interleaving of callers whose translation returns the key `k`, of one to eight
  -- components, a caller that has taken ten steps has returned exactly `k`, whatever the others did
  -- in between: nobody waits, and nobody gets a partial key.
  pub run-finished :
      0 < length k
      → length k ≤ key_segs
      → (order : List ℕ) (thread : ℕ) → 10 ≤ steps_of thread order
      → (run c (ok k) first_callers order).phases thread ≡ finished (ok k)
  run-finished nonempty fits order thread enough =
      let (h, fewer) = run_lem order first_callers nonempty fits first-IsConsistent in
      let bound = fewer thread in
      nothing_left (run c (ok k) first_callers order).cache _ (h.sound thread) (omega arith)

  -- What a caller may have returned.
  abbrev pub IsAnswered : Phase → Type 0
  IsAnswered (finished r) = r ≡ ok k
  IsAnswered _ = Unit

  sound-IsAnswered : (cache : Cache) (phase : Phase) → IsSoundAt c k cache phase → IsAnswered phase
  sound-IsAnswered cache before_load h = tt
  sound-IsAnswered cache (storing k' i) h = tt
  sound-IsAnswered cache (reading len key) h = tt
  sound-IsAnswered cache (finished r) h = h

  whole-published :
      (cache : Cache)
      → length k ≤ key_segs
      → IsWhole c k cache
      → (cache.len ≡ 0) ⊎ (take cache.len cache.segments ≡ k)
  whole-published cache fits w = elim w.published [
    | inl empty ↦ inl empty
    | inr (len, all) ↦ inr (
        ap (λ n. take n cache.segments) len
        ∙ take_agree cache.segments k (omega (arith, w.capacity)) all)
  ]

  -- At every point of every interleaving the static is unpublished or holds the whole key `k` under
  -- its length, and every caller that has returned has returned `k`.
  pub run-IsAnswered :
      0 < length k
      → length k ≤ key_segs
      → (order : List ℕ) (thread : ℕ)
      → let s = run c (ok k) first_callers order in
        ((s.cache.len ≡ 0) ⊎ (take s.cache.len s.cache.segments ≡ k)) × IsAnswered (s.phases thread)
  run-IsAnswered nonempty fits order thread =
      let (h, _) = run_lem order first_callers nonempty fits first-IsConsistent in
      let s = run c (ok k) first_callers order in
      (
        whole-published s.cache fits h.whole,
        sound-IsAnswered s.cache (s.phases thread) (h.sound thread),
      )
