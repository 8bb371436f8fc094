-- ===== src/Global/Valid.antt =====
-- Normalisation keeps a layout valid.
use native.Mathlib.Nat.{pow-le-pow_right, div-eq_of_lt-le, one-mul, le_trans}
use Prim.Native.Nat.{max, suc-le-suc}
use jevmalloc.Prelude.{
  ℕ, zero, suc, ◌+◌, ◌-◌, ◌*◌, ◌/◌, ◌^◌, ◌≤◌, ◌<◌, ◌≡◌, ◌⊎◌, inl, inr, refl, sym, ap, ◌∙◌, arith,
  leb, Bool-cases,
}
use jevmalloc.System.{Arch, quantum, usize_bits}
use jevmalloc.Global.Layout.{Layout, adjust_layout}

-- `size` rounded up to a multiple of `align`.
abbrev pub round_up : ℕ → ℕ → ℕ
round_up size align = (size + (align - 1)) / align * align

-- What `Layout::from_size_align` checks, and the nonzero size that `GlobalAlloc` asks for.
pub record IsLayout (arch : Arch) (l : Layout) : Type 0 where
  pub lg_align : ℕ
  pub is_power : l.align ≡ 2 ^ lg_align
  pub in_word : lg_align < usize_bits arch
  pub nonzero : 0 < l.size
  pub fits : round_up l.size l.align < 2 ^ (usize_bits arch - 1)

-- The powers of two up to the larger quantum.
abbrev pub IsSmall : ℕ → Type 0
IsSmall a = (a ≡ 1) ⊎ (a ≡ 2) ⊎ (a ≡ 4) ⊎ (a ≡ 8) ⊎ (a ≡ 16)

pub power-cases : (k : ℕ) → IsSmall (2 ^ k) ⊎ (32 ≤ 2 ^ k)
power-cases zero = inl (inl refl)
power-cases (suc zero) = inl (inr (inl refl))
power-cases (suc (suc zero)) = inl (inr (inr (inl refl)))
power-cases (suc (suc (suc zero))) = inl (inr (inr (inr (inl refl))))
power-cases (suc (suc (suc (suc zero)))) = inl (inr (inr (inr (inr refl))))
power-cases (suc (suc (suc (suc (suc k))))) =
    inr (pow-le-pow_right {n = 2} (omega arith) {i = 5} (omega arith))

round_up_small : (size align : ℕ) → 0 < size → size ≤ align → round_up size align ≡ align
round_up_small size align h k =
    let one_block : (size + (align - 1)) / align ≡ 1 =
      div-eq_of_lt-le align (omega arith) (omega arith) in
    ap (λ t. t * align) one_block ∙ one-mul align

pub quantum-cases : (arch : Arch) → (quantum arch ≡ 8) ⊎ (quantum arch ≡ 16)
unfolding quantum
quantum-cases Arch.arm = inl refl
quantum-cases Arch.mips = inl refl
quantum-cases Arch.powerpc = inl refl
quantum-cases _ = inr refl

abbrev pub IsQuantum : ℕ → Type 0
IsQuantum q = (q ≡ 8) ⊎ (q ≡ 16)

round_up_quantum : (q a : ℕ) → IsQuantum q → IsSmall a → round_up q a ≤ 16
round_up_quantum q a (inl d) (inl e) = rw (d, e) (omega arith)
round_up_quantum q a (inl d) (inr (inl e)) = rw (d, e) (omega arith)
round_up_quantum q a (inl d) (inr (inr (inl e))) = rw (d, e) (omega arith)
round_up_quantum q a (inl d) (inr (inr (inr (inl e)))) = rw (d, e) (omega arith)
round_up_quantum q a (inl d) (inr (inr (inr (inr e)))) = rw (d, e) (omega arith)
round_up_quantum q a (inr d) (inl e) = rw (d, e) (omega arith)
round_up_quantum q a (inr d) (inr (inl e)) = rw (d, e) (omega arith)
round_up_quantum q a (inr d) (inr (inr (inl e))) = rw (d, e) (omega arith)
round_up_quantum q a (inr d) (inr (inr (inr (inl e)))) = rw (d, e) (omega arith)
round_up_quantum q a (inr d) (inr (inr (inr (inr e)))) = rw (d, e) (omega arith)

-- Raising a size below the quantum leaves the rounded size alone, unless that is at most 16.
round_up-max_small :
    (size k q : ℕ)
    → 0 < size
    → size < q
    → IsQuantum q
    → IsSmall (2 ^ k) ⊎ (32 ≤ 2 ^ k)
    → (round_up q (2 ^ k) ≤ 16) ⊎ (round_up q (2 ^ k) ≡ round_up size (2 ^ k))
round_up-max_small size k q h below c (inl small) = inl (round_up_quantum q (2 ^ k) c small)
round_up-max_small size k q h below c (inr large) = inr (
    round_up_small q (2 ^ k) (omega arith) (omega arith)
    ∙ sym (round_up_small size (2 ^ k) h (omega arith)))

round_up-max :
    (size k q : ℕ)
    → 0 < size
    → IsQuantum q
    → (round_up (max size q) (2 ^ k) ≤ 16) ⊎ (round_up (max size q) (2 ^ k) ≡ round_up size (2 ^ k))
round_up-max size k q h c = elim (Bool-cases (leb q size)) [
  | inl enough ↦ (let e : max size q ≡ size = ground arith in inr (ap (λ t. round_up t (2 ^ k)) e))
  | inr below ↦
      (let e : max size q ≡ q = ground arith in
        rw e (round_up-max_small size k q h (ground arith) c (power-cases k)))
]

word_bound : (arch : Arch) → 16 < 2 ^ (usize_bits arch - 1)
unfolding usize_bits
word_bound Arch.arm = omega arith
word_bound Arch.mips = omega arith
word_bound Arch.powerpc = omega arith
word_bound Arch.x86 = omega arith
word_bound _ = omega arith

adjusted_fits :
    (arch : Arch) (l : Layout)
    → IsLayout arch l
    → round_up (max l.size (quantum arch)) l.align < 2 ^ (usize_bits arch - 1)
adjusted_fits arch l v =
    rw v.is_power
      (elim (round_up-max l.size v.lg_align (quantum arch) v.nonzero (quantum-cases arch)) [
        | inl small ↦ le_trans (suc-le-suc small) (word_bound arch)
        | inr same ↦ rw same (rw v.is_power at v.fits)
      ])

-- Raising the size of a valid nonzero layout to the quantum gives a valid layout again: the
-- alignment is the same, and the rounded size still fits an `isize`. The new size is at least the
-- old one and at least the quantum.
pub adjust_layout-IsLayout :
    (arch : Arch) (l : Layout)
    → IsLayout arch l
    → IsLayout arch (adjust_layout arch l)
      × (l.size ≤ (adjust_layout arch l).size)
      × (quantum arch ≤ (adjust_layout arch l).size)
unfolding adjust_layout
adjust_layout-IsLayout arch l v = (
  record {
    lg_align = v.lg_align;
    is_power = v.is_power;
    in_word = v.in_word;
    nonzero = omega arith;
    fits = adjusted_fits arch l v;
  },
  omega arith,
  omega arith,
)
