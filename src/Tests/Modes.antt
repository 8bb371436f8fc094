-- ===== src/Tests/Modes.antt =====
-- Theorems on all-arena controls and precedence strings at concrete inputs.
use jevmalloc.Prelude.{◌≡◌, ◌≢◌, refl, arith, codes, [], ◌∷◌, ◌==◌, if◌then◌else◌}
use jevmalloc.System.{usize_bytes, System, ok, panic}
use jevmalloc.Tests.Toy.{World, toy, start, toy-IsStable, start-IsCoherent, nonzero}
use jevmalloc.Arena.Dss.{primary, secondary, as_ptr, from_ptr}
use jevmalloc.Arena.Precedence.{from_ptr-as_ptr}
use jevmalloc.Arena.Targets.{Reaches}
use jevmalloc.Arenas.{percpu, decay, purge, trim, dss, set_dss, percpu_mode, mode_from}
use jevmalloc.Arenas.Targets.{sentinel, precedence_at, all-Reaches}
use jevmalloc.Ctl.Queries.{seen, read_at, exchange_at}
use jevmalloc.Ctl.Error.{into_result, invalid_argument}
use jevmalloc.Ctl.Raw.{mibs, checked_key, is_rejected, split_count, name_buf, get}
use jevmalloc.Ctl.Names.{c_string}
use jevmalloc.Ctl.Key.{key, translate, publish, new}

dss_key : (mibs toy (codes "arena.0.dss") start).0 ≡ ok (10 ∷ 11 ∷ 12 ∷ [])
unfolding mibs is_rejected split_count checked_key into_result c_string name_buf
dss_key = refl

all-Reaches_example :
    Reaches toy "arena.0.decay" sentinel start (decay toy)
    × Reaches toy "arena.0.purge" sentinel start (purge toy)
    × ((trim toy start).0 ≢ panic)
    × (seen (dss toy start)
        ≡ precedence_at toy (read_at toy (usize_bytes toy.arch) (10 ∷ 4096 ∷ 12 ∷ []) []))
    × (seen (set_dss toy secondary start)
        ≡ precedence_at toy (
            exchange_at toy (usize_bytes toy.arch) (as_ptr toy secondary) (10 ∷ 4096 ∷ 12 ∷ []) []))
all-Reaches_example =
    all-Reaches toy toy-IsStable nonzero (10 ∷ 11 ∷ 12 ∷ []) secondary start start-IsCoherent
      dss_key

-- A system that has the three literals at the addresses 7, 8 and 9.
abbrev literals : System World
literals = record toy {
  from_ptr = λ ptr w.
      if ptr == 7
      then codes "primary"
      else if ptr == 8
      then codes "disabled"
      else codes "secondary";
}

from_ptr-as_ptr_example : from_ptr literals (as_ptr literals primary) [] ≡ ok primary
from_ptr-as_ptr_example =
    from_ptr-as_ptr literals (record { non_null = omega arith; contents = λ w. refl })
      (record { non_null = omega arith; contents = λ w. refl })
      (record { non_null = omega arith; contents = λ w. refl }) primary []

-- A system in the per-processor mode.
abbrev affine : System World
affine = record toy { from_ptr = λ ptr w. codes "percpu" }

affine_mode : (percpu_mode affine start).0 ≡ ok percpu
unfolding percpu_mode mode_from invalid_argument key translate publish mibs is_rejected split_count
    checked_key into_result c_string name_buf new get usize_bytes
affine_mode = refl
