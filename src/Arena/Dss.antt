-- ===== src/Arena/Dss.antt =====
-- jevmalloc/src/arena/dss.rs: dynamic storage allocation precedence.
use jevmalloc.Prelude.{ℕ, ◌==◌, if◌then◌else◌, same_bytes, codes}
use jevmalloc.System.{Outcome, ok, System, Process}
use jevmalloc.Ctl.Error.{bad_address, invalid_argument}

pub data Dss : Type 0 where
  disabled primary secondary : Dss

module _ {W : Type 0} (s : System W) where
  -- `Dss::as_ptr`
  unfoldable pub as_ptr : Dss → ℕ
  as_ptr disabled = s.literal (codes "disabled")
  as_ptr primary = s.literal (codes "primary")
  as_ptr secondary = s.literal (codes "secondary")

  -- `Dss::from_ptr`
  unfoldable pub from_ptr : ℕ → W → Outcome Dss
  from_ptr ptr w =
      if ptr == 0
      then bad_address s.errno
      else (let value = s.from_ptr ptr w in
          if same_bytes value (codes "disabled")
          then ok disabled
          else if same_bytes value (codes "primary")
          then ok primary
          else if same_bytes value (codes "secondary")
          then ok secondary
          else invalid_argument s.errno)

  -- The same as a step of an action, which reads the string in the present state.
  abbrev pub read_dss : ℕ → Process W → Outcome Dss × Process W
  read_dss ptr p = (from_ptr ptr p.world, p)
