-- ===== src/Tests/Settings.antt =====
-- Theorems on settings and counters at concrete inputs.
use jevmalloc.Prelude.{
  Option, ◌*◌, ◌/◌, ◌<◌, ltb, ℕ, ◌+◌, ◌≡◌, refl, arith, none, some, [], ◌∷◌, ◌==◌, codes, length,
  false, if◌then◌else◌,
}
use jevmalloc.System.{Reply, System, Process, ok, usize_bytes}
use jevmalloc.Tests.Toy.{World, toy, start}
use jevmalloc.Ctl.Error.{into_result}
use jevmalloc.Ctl.Raw.{Key, mibs, checked_key, is_rejected, split_count, name_buf}
use jevmalloc.Ctl.Names.{c_string}
use jevmalloc.Ctl.Caching.{IsStable, IsCoherent, initial-IsCoherent}
use jevmalloc.Arena.Handle.{Arena}
use jevmalloc.Arena.Settings.{grow_limit, read_setting, write_setting, IsCell}
use jevmalloc.Arena.Settings.RoundTrip.{write-read_setting}
use jevmalloc.Thread.Counters
use jevmalloc.Thread.Counters.{ThreadCounters, current}
use jevmalloc.Thread.This
use jevmalloc.Thread.Counted.{IsCounter, counters_agree}

-- A control with classes of eight: it accepts the values below 1000, and rounds them down.
abbrev round_down : ℕ → ℕ
round_down v = (v / 8) * 8

-- The word that was written last, as the control has rounded it.
abbrev top : World → ℕ
top [] = 0
top ([] ∷ rest) = 0
top ((v ∷ vs) ∷ rest) = v

abbrev answer : ℕ → ℕ → World → Reply
answer status size w = record { status = status; value = top w; len = size }

abbrev room : Option (Option ℕ × ℕ) → ℕ
room none = 0
room (some (_, n)) = n

abbrev respond : Key → Option (Option ℕ × ℕ) → Option (ℕ × ℕ) → World → Reply × World
respond key old none w = (answer 0 (room old) w, w)
respond key old (some (v, _)) w =
    if ltb v 1000
    then (answer 0 (room old) w, (round_down v ∷ []) ∷ w)
    else (answer 22 (room old) w, w)

abbrev rounding : System World
rounding = record toy { mallctlbymib = respond }

rounding-IsStable : IsStable rounding
rounding-IsStable = record { read_only = λ name cap w. refl; fixed = λ name cap v w. refl }

rounding-IsCell : IsCell rounding (10 ∷ 5 ∷ 12 ∷ []) top (λ v. v < 1000) round_down
rounding-IsCell = record {
  reads = λ w. refl;
  swaps = λ v h w. ground arith;
  applies = λ v h w. ground arith;
}

abbrev arena : Arena
arena = record { index = 5; owned = false }

limit_key : (mibs rounding (codes "arena.0.retain_grow_limit") start).0 ≡ ok (10 ∷ 11 ∷ 12 ∷ [])
unfolding mibs is_rejected split_count checked_key into_result c_string name_buf
limit_key = refl

write-read_setting_example :
    let next = (write_setting rounding grow_limit arena 300 start).1 in
    let last = (write_setting rounding grow_limit arena 17 next).1 in
    ((write_setting rounding grow_limit arena 300 start).0 ≡ ok 0)
    × ((read_setting rounding grow_limit arena next).0 ≡ ok 296)
    × ((write_setting rounding grow_limit arena 17 next).0 ≡ ok 296)
    × ((read_setting rounding grow_limit arena last).0 ≡ ok 16)
    × IsCoherent rounding next
    × IsCoherent rounding last
write-read_setting_example =
    write-read_setting rounding rounding-IsStable grow_limit arena (10 ∷ 11 ∷ 12 ∷ []) top
      (λ v. v < 1000) round_down rounding-IsCell 300 17 (omega arith) (omega arith) start
      (initial-IsCoherent rounding []) limit_key

-- A system whose keys tell names of different lengths apart, with two counters behind pointers.
abbrev counting : System World
counting = record toy {
  mallctlnametomib = λ name cap w.
      let bytes = c_string name in
      (record { status = 0; slots = λ i. i + length bytes; key_len = split_count bytes }, w);
  mallctlbymib = λ key old fresh w. (
    record {
      status = 0;
      value = elim key [
        | [] ↦ 0
        | n ∷ _ ↦
            if n == 16
            then 100 + length w
            else if n == 17
            then 4096
            else if n == 18
            then 50
            else 4104
      ];
      len = elim old [ none ↦ 0 | some (_, n) ↦ n ];
    },
    w,
  );
  read_u64 = λ ptr w. if ptr == 4096 then 100 + length w else 50;
}

counting-IsStable : IsStable counting
counting-IsStable = record { read_only = λ name cap w. refl; fixed = λ name cap v w. refl }

allocated-IsCounter : IsCounter counting (17 ∷ 18 ∷ []) (16 ∷ 17 ∷ []) 4096
allocated-IsCounter = record { not_null = omega arith; pointer = λ w. refl; value = λ w. refl }

deallocated-IsCounter : IsCounter counting (19 ∷ 20 ∷ []) (18 ∷ 19 ∷ []) 4104
deallocated-IsCounter = record { not_null = omega arith; pointer = λ w. refl; value = λ w. refl }

abbrev later : Process World
later = record start { world = (1 ∷ []) ∷ [] }

counters_agree_example :
    let c : ThreadCounters = record { allocated_ptr = 4096; deallocated_ptr = 4104 } in
    ((current counting start).0 ≡ ok c)
    × ((This.allocated counting later).0 ≡ ok (Counters.allocated counting c ((1 ∷ []) ∷ [])))
    × ((This.deallocated counting later).0 ≡ ok (Counters.deallocated counting c ((1 ∷ []) ∷ [])))
unfolding mibs is_rejected split_count checked_key into_result c_string name_buf usize_bytes
counters_agree_example =
    counters_agree counting counting-IsStable allocated-IsCounter deallocated-IsCounter start later
      (initial-IsCoherent counting []) (initial-IsCoherent counting ((1 ∷ []) ∷ [])) refl refl refl
      refl
