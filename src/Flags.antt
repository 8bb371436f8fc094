-- ===== src/Flags.antt =====
-- jevmalloc-sys/src/flags.rs: the flag word of the extended allocation functions.
-- A `c_int` is its bit pattern of 32 bits; a `usize` has the width of the target.

pub mod Fields
use jevmalloc.Prelude.{ℕ, zero, suc, ◌+◌, ◌-◌, ◌*◌, ◌/◌, ◌%◌, ◌^◌, ◌==◌, if◌then◌else◌}
use jevmalloc.System.{Arch, usize_bits}

abbrev pub int_mod : ℕ
int_mod = 2 ^ 32

-- `usize::trailing_zeros`, on at most `bits` bits; it is `bits` at zero.
unfoldable pub trailing_zeros : ℕ → ℕ → ℕ
trailing_zeros zero x = 0
trailing_zeros (suc bits) x =
    let rest = suc (trailing_zeros bits (x / 2)) in if x % 2 == 1 then 0 else rest

unfoldable pub mallocx_lg_align : ℕ → ℕ
mallocx_lg_align la = la % int_mod

unfoldable pub mallocx_align : Arch → ℕ → ℕ
unfolding trailing_zeros usize_bits
mallocx_align arch align = trailing_zeros (usize_bits arch) align

-- `(a as c_int).wrapping_add(1).wrapping_shl(20)`
unfoldable pub mallocx_arena : ℕ → ℕ
mallocx_arena a = ((a % int_mod + 1) % int_mod * 2 ^ 20) % int_mod

-- `tc.wrapping_add(2).wrapping_shl(8) as c_int`
unfoldable pub mallocx_tcache : Arch → ℕ → ℕ
unfolding usize_bits
mallocx_tcache arch tc = ((tc + 2) % 2 ^ usize_bits arch * 2 ^ 8) % 2 ^ usize_bits arch % int_mod

-- `MALLOCX_TCACHE(usize::MAX)`
unfoldable pub mallocx_tcache_none : Arch → ℕ
unfolding mallocx_tcache
mallocx_tcache_none arch = mallocx_tcache arch (2 ^ usize_bits arch - 1)

abbrev pub mallocx_zero : ℕ
mallocx_zero = 0x40
