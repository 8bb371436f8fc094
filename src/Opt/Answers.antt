-- ===== src/Opt/Answers.antt =====
-- The getters of startup options and of the build configuration, against one read of their key.
use jevmalloc.Prelude.{ℕ, ◌<◌, ◌==◌, Bool, not, arith, if◌then◌else◌}
use jevmalloc.System.{Arch, usize_bytes, System, Outcome, ok, err}
use jevmalloc.Ctl.Raw.{Key}
use jevmalloc.Ctl.Queries.{converted, read_at}
use jevmalloc.Config

pub usize_bytes-pos : (arch : Arch) → 0 < usize_bytes arch
unfolding usize_bytes
usize_bytes-pos Arch.arm = omega arith
usize_bytes-pos Arch.mips = omega arith
usize_bytes-pos Arch.powerpc = omega arith
usize_bytes-pos Arch.x86 = omega arith
usize_bytes-pos _ = omega arith

module _ {W : Type 0} (s : System W) where
  -- What a boolean getter is to show: one read of 4 bytes for MSVC and of 1 otherwise, which is true
  -- unless the answer is 0.
  abbrev pub flag_at : Key → W → Outcome Bool × W
  flag_at k w = converted (λ v. ok (not (v == 0))) (read_at s (if s.msvc then 4 else 1) k w)

  -- What a string getter is to show: one read of a pointer, where null is `EFAULT`.
  abbrev pub string_at : Key → W → Outcome ℕ × W
  string_at k w =
      converted (λ v. if v == 0 then err (record { code = s.errno.efault }) else ok v)
        (read_at s (usize_bytes s.arch) k w)
