-- ===== src/Flags/Fields.antt =====
-- The fields of a flag word are disjoint: what each helper encodes can be read back.
use jevmalloc.Prelude.{refl, ℕ, ◌+◌, ◌*◌, ◌/◌, ◌%◌, ◌^◌, ◌<◌, ◌≡◌, arith}
use jevmalloc.System.{Arch, usize_bits}
use jevmalloc.Flags.{mallocx_arena, mallocx_tcache, mallocx_tcache_none, mallocx_zero, int_mod}

-- An ordinary arena index is read back from bits 20 and up; the bits below are clear.
mallocx_arena_lem : (a : ℕ) → a < 4095 → mallocx_arena a ≡ (a + 1) * 2 ^ 20
unfolding mallocx_arena
mallocx_arena_lem a h = omega arith

mallocx_tcache_lem : (arch : Arch) (tc : ℕ) → tc < 4094 → mallocx_tcache arch tc ≡ (tc + 2) * 2 ^ 8
unfolding mallocx_tcache usize_bits
mallocx_tcache_lem Arch.arm tc h = omega arith
mallocx_tcache_lem Arch.mips tc h = omega arith
mallocx_tcache_lem Arch.powerpc tc h = omega arith
mallocx_tcache_lem Arch.x86 tc h = omega arith
mallocx_tcache_lem _ tc h = omega arith

mallocx_tcache_none_lem : (arch : Arch) → mallocx_tcache_none arch ≡ 2 ^ 8
unfolding mallocx_tcache_none mallocx_tcache usize_bits
mallocx_tcache_none_lem Arch.arm = refl
mallocx_tcache_none_lem _ = refl

-- The arena, the explicit cache, the zero bit and the alignment of one flag word, for indices in
-- the ranges that the handles keep, occupy bits 20 to 31, 8 to 19, 6 and 0 to 5: the word fits a
-- `c_int`, every field is read back, and no cache identifier looks like "no cache".
pub fields_round_trip :
    (arch : Arch) (arena tcache lg_align zero_bit : ℕ)
    → arena < 4095
    → tcache < 4094
    → lg_align < 64
    → zero_bit < 2
    → let word =
        mallocx_arena arena + mallocx_tcache arch tcache + zero_bit * mallocx_zero + lg_align in
      (word < int_mod)
      × (word / 2 ^ 20 ≡ arena + 1)
      × (word % 2 ^ 20 / 2 ^ 8 ≡ tcache + 2)
      × (word % 2 ^ 7 / 2 ^ 6 ≡ zero_bit)
      × (word % 2 ^ 6 ≡ lg_align)
      × (mallocx_tcache_none arch < mallocx_tcache arch tcache)
fields_round_trip arch arena tcache lg_align zero_bit ha ht hl hz =
    rw (mallocx_arena_lem arena ha, mallocx_tcache_lem arch tcache ht, mallocx_tcache_none_lem arch)
      (omega arith, omega arith, omega arith, omega arith, omega arith, omega arith)
