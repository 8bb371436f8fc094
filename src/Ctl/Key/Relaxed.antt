-- ===== src/Ctl/Key/Relaxed.antt =====
-- `Cache::get` of jevmalloc/src/ctl/key/cache.rs under concurrent callers on a weak memory. A
-- location keeps all its stores, each with a time; a caller has seen each location up to a time, and
-- a load may return any store that is not older. The relaxed accesses of the segments pass nothing
-- on; the release store of the length carries what its caller had seen, and the acquire load takes
-- it over. A store does not take effect before an earlier load of its own caller.
use jevmalloc.Prelude.{
  ℕ, suc, Bool, true, ◌&&◌, not, Option, none, some, List, [], ◌∷◌, ◌++◌, ltb, leb, max, ◌==◌,
  if◌then◌else◌, length, get_elem?,
}
use jevmalloc.System.{Errno, Outcome, ok}
use jevmalloc.Ctl.Error.{invalid_argument}
use jevmalloc.Ctl.Raw.{Key, key_segs}
use jevmalloc.Ctl.Key.Threads.{Phase, before_load, storing, reading, finished, translated}

-- What has been seen of each segment.
abbrev pub View : Type 0
View = ℕ → ℕ

abbrev pub join : View → View → View
join v w j = max (v j) (w j)

abbrev pub see : View → ℕ → ℕ → View
see v i time j = if j == i then time else v j

-- A store of a segment, and one of the length.
pub record Store : Type 0 where
  pub time : ℕ
  pub value : ℕ

pub record Publication : Type 0 where
  pub time : ℕ
  pub len : ℕ
  pub view : View

pub record Memory : Type 0 where
  pub segments : ℕ → List Store
  pub lens : List Publication

pub record Caller : Type 0 where
  pub phase : Phase
  pub view : View
  pub len_view : ℕ

-- A store that is not older than what has been seen.
unfoldable pub recent : ℕ → Option Store → Option Store
recent seen none = none
recent seen (some s) = if leb seen s.time then some s else none

unfoldable pub recent_len : ℕ → Option Publication → Option Publication
recent_len seen none = none
recent_len seen (some p) = if leb seen p.time then some p else none

-- `Cache::new`: every location has its initial zero at time zero.
unfoldable pub initial : Memory
initial = record {
  segments = λ _. record { time = 0; value = 0 } ∷ [];
  lens = record { time = 0; len = 0; view = λ _. 0 } ∷ [];
}

-- A time that no store of the location has yet.
abbrev pub is_free : ℕ → List Store → Bool
is_free time [] = true
is_free time (s ∷ rest) = not (s.time == time) && is_free time rest

abbrev pub is_free_len : ℕ → List Publication → Bool
is_free_len time [] = true
is_free_len time (p ∷ rest) = not (p.time == time) && is_free_len time rest

-- `try_push`, where the capacity is used up.
abbrev pub pushed : Errno → ℕ → Key → ℕ → Phase
pushed c len k segment =
    if ltb (length k) key_segs
    then reading len (k ++ segment ∷ [])
    else finished (invalid_argument c)

module _ (c : Errno) (r : Outcome Key) where
  -- One atomic step of a caller. The number picks the store that a load returns, or the time of a
  -- store; where it picks none that is allowed, nothing happens.
  unfoldable pub relaxed_step : Memory → View → ℕ → Phase → ℕ → Memory × Caller
  relaxed_step m view len_view before_load n = elim (recent_len len_view (get_elem? m.lens n)) [
    | none ↦ (m, record { phase = before_load; view = view; len_view = len_view })
    | some p ↦ (
      m,
      record {
        phase = if ltb 0 p.len then reading p.len [] else translated r;
        view = join view p.view;
        len_view = p.time;
      },
    )
  ]
  relaxed_step m view len_view (storing k i) n = elim (get_elem? k i) [
    | some segment ↦
        (if ltb (view i) n && is_free n (m.segments i)
          then (
            record m {
              segments = λ j.
                  if j == i
                  then record { time = n; value = segment } ∷ m.segments j
                  else m.segments j;
            },
            record { phase = storing k (suc i); view = see view i n; len_view = len_view },
          )
          else (m, record { phase = storing k i; view = view; len_view = len_view }))
    | none ↦
        (if ltb len_view n && is_free_len n m.lens
          then (
            record m { lens = record { time = n; len = length k; view = view } ∷ m.lens },
            record { phase = finished (ok k); view = view; len_view = n },
          )
          else (m, record { phase = storing k i; view = view; len_view = len_view }))
  ]
  relaxed_step m view len_view (reading len k) n =
      if ltb (length k) len && ltb (length k) key_segs
      then elim (recent (view (length k)) (get_elem? (m.segments (length k)) n)) [
        | none ↦ (m, record { phase = reading len k; view = view; len_view = len_view })
        | some s ↦ (
          m,
          record {
            phase = pushed c len k s.value;
            view = see view (length k) s.time;
            len_view = len_view;
          },
        )
      ]
      else (m, record { phase = finished (ok k); view = view; len_view = len_view })
  relaxed_step m view len_view (finished outcome) n =
      (m, record { phase = finished outcome; view = view; len_view = len_view })

-- One static, and the threads that call its accessor.
pub record World : Type 0 where
  pub memory : Memory
  pub callers : ℕ → Caller

module _ (c : Errno) (r : Outcome Key) where
  unfoldable pub relaxed_advance : World → ℕ × ℕ → World
  relaxed_advance w (thread, n) =
      let a = w.callers thread in
      let (m, a') = relaxed_step c r w.memory a.view a.len_view a.phase n in
      record { memory = m; callers = λ other. if other == thread then a' else w.callers other }

  -- An execution is the list of the steps, each with its thread and its pick.
  unfoldable pub relaxed_run : World → List (ℕ × ℕ) → World
  relaxed_run w [] = w
  relaxed_run w (move ∷ rest) = relaxed_run (relaxed_advance w move) rest
