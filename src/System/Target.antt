-- ===== src/System/Target.antt =====
-- The supported targets: the quantum of jevmalloc/src/global/layout.rs and the pointer width.
use jevmalloc.Prelude.{ℕ}

-- The values of `target_arch` that the two `cfg(any(...))` lists name.
pub data Arch : Type 0 where
  arm mips powerpc x86 x86_64 aarch64 powerpc64 loongarch64 mips64 riscv64 s390x sparc64 : Arch

-- `QUANTUM`, by the two `cfg` lists.
unfoldable pub quantum : Arch → ℕ
quantum arm = 8
quantum mips = 8
quantum powerpc = 8
quantum _ = 16

-- The width of `usize` and of a pointer, in bits.
unfoldable pub usize_bits : Arch → ℕ
usize_bits arm = 32
usize_bits mips = 32
usize_bits powerpc = 32
usize_bits x86 = 32
usize_bits _ = 64

-- `size_of::<usize>()`, which is also the size of a pointer and of `isize`.
unfoldable pub usize_bytes : Arch → ℕ
usize_bytes arm = 4
usize_bytes mips = 4
usize_bytes powerpc = 4
usize_bytes x86 = 4
usize_bytes _ = 8
