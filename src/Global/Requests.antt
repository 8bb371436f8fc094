-- ===== src/Global/Requests.antt =====
-- The requests that reach jemalloc: a block is released with the size and the flags it was asked for.
use Prim.Native.Nat.{bit_or}
use native.Mathlib.Nat.{pow-suc, le_trans}
use jevmalloc.Prelude.{
  ℕ, zero, suc, ◌+◌, ◌*◌, ◌/◌, ◌%◌, ◌^◌, ◌≤◌, ◌<◌, ◌≡◌, ◌⊎◌, inl, inr, refl, ap, Bool, true, false,
  ◌&&◌, Option, leb, ◌==◌, arith, Bool-cases, ==_iff,
}
use jevmalloc.System.{Arch, quantum, usize_bits, System, Process, ok}
use jevmalloc.Flags.{trailing_zeros, mallocx_align}
use jevmalloc.Global.Layout.{Layout, adjust_layout, layout_flags}
use jevmalloc.Global.Alloc.{Build, observe, debug_validate, alloc, alloc_zeroed, realloc, dealloc}
use jevmalloc.Global.Valid.{IsLayout, adjust_layout-IsLayout}

-- `trailing_zeros` finds the exponent of a power of two.
trailing_zeros-pow : (bits k : ℕ) → k < bits → trailing_zeros bits (2 ^ k) ≡ k
unfolding trailing_zeros
trailing_zeros-pow zero k h = elim h [ ]
trailing_zeros-pow (suc bits) zero h = refl
trailing_zeros-pow (suc bits) (suc k) h =
    let double : 2 ^ suc k ≡ 2 ^ k * 2 = pow-suc 2 k in
    let half : 2 ^ suc k / 2 ≡ 2 ^ k = omega arith in
    let even : (2 ^ suc k % 2 == 1) ≡ false = ground arith in
    rw (even, half) (ap suc (trailing_zeros-pow bits k (omega arith)))

trailing_zeros-align :
    (arch : Arch) (l : Layout) (v : IsLayout arch l) → mallocx_align arch l.align ≡ v.lg_align
unfolding mallocx_align
trailing_zeros-align arch l v =
    rw v.is_power (trailing_zeros-pow (usize_bits arch) v.lg_align v.in_word)

-- What the flag word of a layout means: either it names the alignment, or it is zero and the
-- alignment is at most the quantum and at most the size, which the size class gives anyway.
pub layout_flags_cases :
    (arch : Arch) (l : Layout)
    → IsLayout arch l
    → (l.align ≡ 2 ^ layout_flags arch l)
      ⊎ ((layout_flags arch l ≡ 0) × (l.align ≤ quantum arch) × (l.align ≤ l.size))
unfolding layout_flags
layout_flags_cases arch l v = elim (Bool-cases (leb l.align (quantum arch) && leb l.align l.size)) [
  | inl implied ↦ inr (rw implied (refl, ground arith, ground arith))
  | inr explicit ↦ inl (rw explicit (rw (trailing_zeros-align arch l v) v.is_power))
]

usize_bits-le : (arch : Arch) → usize_bits arch ≤ 64
unfolding usize_bits
usize_bits-le Arch.arm = omega arith
usize_bits-le Arch.mips = omega arith
usize_bits-le Arch.powerpc = omega arith
usize_bits-le Arch.x86 = omega arith
usize_bits-le _ = omega arith

-- The alignment field stays clear of the bit that asks for zeroed memory.
pub layout_flags-lt : (arch : Arch) (l : Layout) → IsLayout arch l → layout_flags arch l < 64
unfolding layout_flags
layout_flags-lt arch l v = elim (Bool-cases (leb l.align (quantum arch) && leb l.align l.size)) [
  | inl implied ↦ rw implied (omega arith)
  | inr explicit ↦
      rw explicit (rw (trailing_zeros-align arch l v) (le_trans v.in_word (usize_bits-le arch)))
]

all_below : ℕ → (ℕ → Bool) → Bool
all_below zero test = true
all_below (suc n) test = test n && all_below n test

all_below_sound :
    (n : ℕ) (test : ℕ → Bool) (x : ℕ) → all_below n test ≡ true → x < n → test x ≡ true
unfolding all_below
all_below_sound zero test x h below = absurd (omega arith)
all_below_sound (suc n) test x h below = ground (arith, all_below_sound n test x)

zero_bit_table : all_below 64 (λ x. bit_or x 0x40 == x + 0x40) ≡ true
unfolding all_below
zero_bit_table = refl

pub bit_or-zero_bit : (x : ℕ) → x < 64 → bit_or x 0x40 ≡ x + 0x40
bit_or-zero_bit x h = (==_iff _ _).0 (all_below_sound 64 _ x zero_bit_table h)

module _ {W : Type 0} (s : System W) (b : Build W) where
  -- The size and the flags that stand for a layout at the FFI boundary.
  abbrev pub request_size : Layout → ℕ
  request_size l = (adjust_layout s.arch l).size

  abbrev pub request_flags : Layout → ℕ
  request_flags l = layout_flags s.arch (adjust_layout s.arch l)

  -- The state that an operation starts from: the slot's callback has seen the original arguments.
  abbrev pub observed :
      {H : Type 0} → Option H → (H → Process W → Process W) → Process W → Process W
  observed slot call p = (observe b.global_hooks slot call p).1

  pub observe-returns :
      {H : Type 0} (slot : Option H) (call : H → Process W → Process W) (p : Process W)
      → (observe b.global_hooks slot call p).0 ≡ ok tt
  unfolding observe
  observe-returns slot call p = ground arith

  pub alloc_lem :
      b.debug_assertions ≡ false
      → (l : Layout) (p : Process W)
      → let q = observed b.on_alloc (λ hook. hook l) p in
        let (ptr, w) = s.mallocx (request_size l) (request_flags l) q.world in
        alloc s b l p ≡ (ok ptr, record q { world = w })
  unfolding alloc debug_validate
  alloc_lem release l p = ground (arith, observe-returns b.on_alloc (λ hook. hook l) p)

  pub alloc_zeroed_lem :
      b.debug_assertions ≡ false
      → (l : Layout) (p : Process W) → IsLayout s.arch l
      → let q = observed b.on_alloc_zeroed (λ hook. hook l) p in
        let (ptr, w) = s.mallocx (request_size l) (request_flags l + 0x40) q.world in
        alloc_zeroed s b l p ≡ (ok ptr, record q { world = w })
  unfolding alloc_zeroed debug_validate
  alloc_zeroed_lem release l p v =
      rw
        (← bit_or-zero_bit (request_flags l)
          (layout_flags-lt s.arch (adjust_layout s.arch l) (adjust_layout-IsLayout s.arch l v).0))
        (ground (arith, observe-returns b.on_alloc_zeroed (λ hook. hook l) p))

  pub realloc_lem :
      b.debug_assertions ≡ false
      → (old : ℕ) (l : Layout) (size : ℕ) (p : Process W)
      → let q = observed b.on_realloc (λ hook. hook l old size) p in
        let l' = record l { size = size } in
        let (ptr, w) = s.rallocx old (request_size l') (request_flags l') q.world in
        realloc s b old l size p ≡ (ok ptr, record q { world = w })
  unfolding realloc debug_validate
  realloc_lem release old l size p =
      ground (arith, observe-returns b.on_realloc (λ hook. hook l old size) p)

  pub dealloc_lem :
      b.debug_assertions ≡ false
      → (ptr : ℕ) (l : Layout) (p : Process W)
      → let q = observed b.on_dealloc (λ hook. hook l ptr) p in
        dealloc s b ptr l p
        ≡ (ok tt, record q { world = s.sdallocx ptr (request_size l) (request_flags l) q.world })
  unfolding dealloc debug_validate
  dealloc_lem release ptr l p = ground (arith, observe-returns b.on_dealloc (λ hook. hook l ptr) p)

  -- One size and one flag word stand for the layout `l` at the FFI boundary: `alloc` and `realloc` to
  -- `l` ask with them, `alloc_zeroed` adds the zero bit and nothing else, `dealloc` releases with
  -- them, and jemalloc's pointer comes back unexamined.
  abbrev pub SameRequest : Layout → ℕ → ℕ → Process W → Type 0
  SameRequest l old before p =
      (size flags : ℕ) × (l.size ≤ size)
      × (quantum s.arch ≤ size)
      × (flags < 64)
      × (let q = observed b.on_alloc (λ hook. hook l) p in
          let (ptr, w) = s.mallocx size flags q.world in
          alloc s b l p ≡ (ok ptr, record q { world = w }))
      × (let q = observed b.on_alloc_zeroed (λ hook. hook l) p in
          let (ptr, w) = s.mallocx size (flags + 0x40) q.world in
          alloc_zeroed s b l p ≡ (ok ptr, record q { world = w }))
      × (let l' = record l { size = before } in
          let q = observed b.on_realloc (λ hook. hook l' old l.size) p in
          let (ptr, w) = s.rallocx old size flags q.world in
          realloc s b old l' l.size p ≡ (ok ptr, record q { world = w }))
      × (let q = observed b.on_dealloc (λ hook. hook l old) p in
          dealloc s b old l p ≡ (ok tt, record q { world = s.sdallocx old size flags q.world }))

  -- In a release build, after the slots' callbacks, all four operations of a valid layout agree on
  -- one size, at least the layout's and the quantum, and on one flag word below 64.
  pub same_request :
      b.debug_assertions ≡ false
      → (l : Layout) (old before : ℕ) (p : Process W) → IsLayout s.arch l
      → SameRequest l old before p
  same_request release l old before p v =
      let (v', larger, enough) = adjust_layout-IsLayout s.arch l v in
      (
        request_size l,
        request_flags l,
        larger,
        enough,
        layout_flags-lt s.arch (adjust_layout s.arch l) v',
        alloc_lem release l p,
        alloc_zeroed_lem release l p v,
        realloc_lem release old (record l { size = before }) l.size p,
        dealloc_lem release old l p,
      )
