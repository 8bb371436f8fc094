-- ===== src/Ctl/Publication.antt =====
-- Any execution of concurrent callers of a key accessor on a weak memory.
use jevmalloc.Prelude.{
  ℕ, ◌≤◌, ◌<◌, inl, inr, refl, List, [], ◌∷◌, All, arith, Bool-cases, ◌==◌, length, zero, suc, map,
  ap, ◌+◌, ◌≡◌, ltb, ==_iff, true,
}
use jevmalloc.System.{Errno, ok}
use jevmalloc.Ctl.Raw.{Key, key_segs}
use jevmalloc.Ctl.Key.Threads.{Phase, before_load, storing, reading, finished}
use jevmalloc.Ctl.Key.Relaxed.{initial, World, relaxed_step, relaxed_advance, relaxed_run}
use jevmalloc.Ctl.Schedules.{IsAnswered}
use jevmalloc.Ctl.Interleaving.{left}
use jevmalloc.Ctl.Coverage.{latest_len, IsCovered, IsStocked, grow-IsCovered}
use jevmalloc.Ctl.Coverage.Steps.{relaxed_step-Advances}
use jevmalloc.Ctl.Coverage.Moves.{sound-Moves}
use jevmalloc.Ctl.Visibility.{IsWhole, IsSound, IsPublication}
use jevmalloc.Ctl.Visibility.Steps.{relaxed_step-Keeps}

-- A fresh static, and callers that have not begun and have seen the initial zeroes.
abbrev pub fresh_world : World
fresh_world = record {
  memory = initial;
  callers = λ _. record { phase = before_load; view = λ _. 0; len_view = 0 };
}

module _ (c : Errno) (k : Key) where
  record IsSoundWorld (w : World) : Type 0 where
    memory : IsWhole k w.memory
    callers : (thread : ℕ) → IsSound k (w.callers thread).view (w.callers thread).phase
    stocked : IsStocked w.memory
    covered : (thread : ℕ) → IsCovered w.memory (w.callers thread).view
    len_covered : (thread : ℕ) → (w.callers thread).len_view ≤ latest_len w.memory.lens

  advance-IsSoundWorld :
      (w : World) (move : ℕ × ℕ)
      → 0 < length k
      → length k ≤ key_segs
      → IsSoundWorld w
      → IsSoundWorld (relaxed_advance c (ok k) w move)
  unfolding relaxed_advance
  advance-IsSoundWorld w (thread, n) nonempty fits h =
      let a = w.callers thread in
      let kept =
        relaxed_step-Keeps k c w.memory a.view a.len_view a.phase n nonempty fits h.memory
          (h.callers thread) in
      let moved =
        relaxed_step-Advances c (ok k) w.memory a.view a.len_view h.stocked (h.covered thread)
          (h.len_covered thread) a.phase n in
      let next = relaxed_step c (ok k) w.memory a.view a.len_view a.phase n in
      record {
        memory = kept.0;
        callers = λ other. elim (Bool-cases (other == thread)) [
          | inl same ↦ rw same kept.1
          | inr differs ↦ rw differs (h.callers other)
        ];
        stocked = moved.stocked;
        covered = λ other. elim (Bool-cases (other == thread)) [
          | inl same ↦ rw same moved.covered
          | inr differs ↦
              rw differs (
                grow-IsCovered w.memory next.0 (w.callers other).view moved.grows (h.covered other))
        ];
        len_covered = λ other. elim (Bool-cases (other == thread)) [
          | inl same ↦ rw same moved.len_covered
          | inr differs ↦ rw differs (omega (arith, moved.grows.lens, h.len_covered other))
        ];
      }

  run-IsSoundWorld :
      (moves : List (ℕ × ℕ)) (w : World)
      → 0 < length k
      → length k ≤ key_segs
      → IsSoundWorld w
      → IsSoundWorld (relaxed_run c (ok k) w moves)
  unfolding relaxed_run
  run-IsSoundWorld [] w nonempty fits h = h
  run-IsSoundWorld (move ∷ rest) w nonempty fits h =
      run-IsSoundWorld rest _ nonempty fits (advance-IsSoundWorld w move nonempty fits h)

  fresh-IsSoundWorld : IsSoundWorld fresh_world
  unfolding initial
  fresh-IsSoundWorld = record {
    memory = record { segments = λ j. ((λ past. absurd (omega arith)), tt); lens = (inl refl, tt) };
    callers = λ thread. tt;
    stocked = record {
      views = ((λ j. omega arith), tt);
      some_segment = λ j. omega arith;
      some_len = omega arith;
    };
    covered = λ thread j. omega arith;
    len_covered = λ thread. omega arith;
  }

  sound-IsAnswered : (v : ℕ → ℕ) (phase : Phase) → IsSound k v phase → IsAnswered c k phase
  sound-IsAnswered v (finished r) h = h
  sound-IsAnswered v _ h = tt

  -- In every execution of callers on the weak memory, whatever stores their loads return, every
  -- caller that has returned has returned the whole key `k`, of one to eight components, and each
  -- published length is zero or that of `k`, with every component stored before it.
  pub relaxed_run-IsAnswered :
      0 < length k
      → length k ≤ key_segs
      → (moves : List (ℕ × ℕ)) (thread : ℕ)
      → let w = relaxed_run c (ok k) fresh_world moves in
        All (IsPublication k) w.memory.lens × IsAnswered c k (w.callers thread).phase
  relaxed_run-IsAnswered nonempty fits moves thread =
      let w = relaxed_run c (ok k) fresh_world moves in
      let h = run-IsSoundWorld moves fresh_world nonempty fits fresh-IsSoundWorld in
      (h.memory.lens, sound-IsAnswered (w.callers thread).view _ (h.callers thread))

  -- The steps that a thread takes by itself to the end, at most `bound` of them.
  pub record EndsWithin (bound : ℕ) (w : World) (thread : ℕ) : Type 0 where
    pub picks : List ℕ
    pub few : length picks ≤ bound
    pub ends :
        ((relaxed_run c (ok k) w (map (λ n. (thread, n)) picks)).callers thread).phase
        ≡ finished (ok k)

  no_more :
      (v : ℕ → ℕ) (phase : Phase) → IsSound k v phase → left c k phase ≡ 0 → phase ≡ finished (ok k)
  no_more v before_load h e = absurd (omega arith)
  no_more v (storing k' i) (same, bound, past) e = absurd (omega arith)
  no_more v (reading len key) (same, past, bound, prefix) e = absurd (omega arith)
  no_more v (finished r) h e = ap finished h

  left_bound : (phase : Phase) → left c k phase ≤ length k + 2
  left_bound before_load = omega arith
  left_bound (storing k' i) = omega arith
  left_bound (reading len key) = omega arith
  left_bound (finished r) = omega arith

  go_to_end :
      (bound : ℕ) (w : World) (thread : ℕ)
      → length k ≤ key_segs
      → 0 < length k
      → IsSoundWorld w
      → left c k (w.callers thread).phase ≤ bound
      → EndsWithin bound w thread
  unfolding relaxed_run relaxed_advance
  go_to_end zero w thread fits nonempty h enough = record {
    picks = [];
    few = omega arith;
    ends = no_more (w.callers thread).view _ (h.callers thread) (omega arith);
  }
  go_to_end (suc bound) w thread fits nonempty h enough =
      elim (Bool-cases (ltb 0 (left c k (w.callers thread).phase))) [
        | inr done ↦ record {
          picks = [];
          few = omega arith;
          ends = no_more (w.callers thread).view _ (h.callers thread) (ground arith);
        }
        | inl more ↦
            (let a = w.callers thread in
              let move =
                sound-Moves k c w.memory a.view a.len_view h.stocked (h.covered thread)
                  (h.len_covered thread) a.phase fits (h.callers thread) (ground arith) in
              let w' = relaxed_advance c (ok k) w (thread, move.pick) in
              let self : (thread == thread) ≡ true = (==_iff thread thread).1 refl in
              let rest =
                go_to_end bound w' thread fits nonempty
                  (advance-IsSoundWorld w (thread, move.pick) nonempty fits h)
                  (rw self (omega (arith, move.fewer))) in
              record {
                picks = move.pick ∷ rest.picks;
                few = omega (arith, rest.few);
                ends = rest.ends;
              })
      ]

  -- At every point of every execution of callers on the weak memory, each caller can return the whole
  -- key `k`, of one to eight components, by at most ten more steps of its own, whatever the others
  -- have left undone.
  pub relaxed_run-ends :
      0 < length k
      → length k ≤ key_segs
      → (moves : List (ℕ × ℕ)) (thread : ℕ)
      → EndsWithin 10 (relaxed_run c (ok k) fresh_world moves) thread
  relaxed_run-ends nonempty fits moves thread =
      let w = relaxed_run c (ok k) fresh_world moves in
      go_to_end 10 w thread fits nonempty
        (run-IsSoundWorld moves fresh_world nonempty fits fresh-IsSoundWorld)
        (omega (arith, left_bound (w.callers thread).phase))
