-- ===== src/Global/Checks.antt =====
-- The debug checks of the allocator: a jemalloc that keeps its documented contract passes them all.

use Prim.Native.Nat.{bit_or}
use jevmalloc.Prelude.{ℕ, ◌%◌, ◌^◌, ◌≤◌, ◌≡◌, ◌⊎◌, inl, inr, refl, arith}
use jevmalloc.System.{Arch, quantum, System, Process, ok}
use jevmalloc.Global.Layout.{Layout, adjust_layout, layout_flags}
use jevmalloc.Global.Alloc.{Build, debug_validate, alloc, alloc_zeroed, realloc}
use jevmalloc.Global.Valid.{
  IsLayout, IsSmall, IsQuantum, power-cases, quantum-cases, adjust_layout-IsLayout,
}
use jevmalloc.Global.Requests.{
  observed, observe-returns, request_size, request_flags, layout_flags_cases, layout_flags-lt,
  bit_or-zero_bit,
}

-- What is documented of a served block: its size class and its usable size are at least the size
-- asked for, its address is a multiple of the alignment that the flag word names, and of the
-- quantum if the size is at least that.
pub record IsServed {W : Type 0} (s : System W) (size flags ptr : ℕ) (w : W) : Type 0 where
  pub class_size : size ≤ s.nallocx size flags w
  pub usable : size ≤ s.sallocx ptr flags w
  pub aligned : ptr % 2 ^ (flags % 64) ≡ 0
  pub fundamental : quantum s.arch ≤ size → ptr % quantum s.arch ≡ 0

-- Every answer of `mallocx` is null or a served block.
abbrev pub IsServing : {W : Type 0} → System W → Type 0
IsServing {W = W} s =
    (size flags : ℕ) (w : W)
    → let (ptr, w') = s.mallocx size flags w in (ptr ≡ 0) ⊎ IsServed s size flags ptr w'

-- A multiple of the quantum is a multiple of every smaller power of two.
small_divides : (q a ptr : ℕ) → IsQuantum q → IsSmall a → a ≤ q → ptr % q ≡ 0 → ptr % a ≡ 0
small_divides q a ptr (inl d) (inl e) le h = rw e (omega arith)
small_divides q a ptr (inr d) (inl e) le h = rw e (omega arith)
small_divides q a ptr (inl d) (inr (inl e)) le h =
    let h' : ptr % 8 ≡ 0 = rw d at h in rw e (omega arith)
small_divides q a ptr (inr d) (inr (inl e)) le h =
    let h' : ptr % 16 ≡ 0 = rw d at h in rw e (omega arith)
small_divides q a ptr (inl d) (inr (inr (inl e))) le h =
    let h' : ptr % 8 ≡ 0 = rw d at h in rw e (omega arith)
small_divides q a ptr (inr d) (inr (inr (inl e))) le h =
    let h' : ptr % 16 ≡ 0 = rw d at h in rw e (omega arith)
small_divides q a ptr (inl d) (inr (inr (inr (inl e)))) le h =
    let h' : ptr % 8 ≡ 0 = rw d at h in rw e (omega arith)
small_divides q a ptr (inr d) (inr (inr (inr (inl e)))) le h =
    let h' : ptr % 16 ≡ 0 = rw d at h in rw e (omega arith)
small_divides q a ptr (inl d) (inr (inr (inr (inr e)))) le h = absurd (omega arith)
small_divides q a ptr (inr d) (inr (inr (inr (inr e)))) le h =
    let h' : ptr % 16 ≡ 0 = rw d at h in rw e (omega arith)

quantum_divides :
    (arch : Arch) (k ptr : ℕ) → 2 ^ k ≤ quantum arch → ptr % quantum arch ≡ 0 → ptr % 2 ^ k ≡ 0
quantum_divides arch k ptr le h = elim (power-cases k) [
  | inl small ↦ small_divides (quantum arch) (2 ^ k) ptr (quantum-cases arch) small le h
  | inr large ↦ elim (quantum-cases arch) [
    | inl d ↦ absurd (omega arith)
    | inr d ↦ absurd (omega arith)
  ]
]

-- The same of every answer of `rallocx`.
abbrev pub IsReserving : {W : Type 0} → System W → Type 0
IsReserving {W = W} s =
    (old size flags : ℕ) (w : W)
    → let (ptr, w') = s.rallocx old size flags w in (ptr ≡ 0) ⊎ IsServed s size flags ptr w'

module _ {W : Type 0} (s : System W) (b : Build W) where
  -- A served block of a normalised layout has the layout's alignment, whether or not zeroed memory
  -- was asked for.
  served_aligned :
      (l : Layout) (flags ptr : ℕ) (w : W)
      → IsLayout s.arch l
      → quantum s.arch ≤ l.size
      → flags % 64 ≡ layout_flags s.arch l
      → IsServed s l.size flags ptr w
      → ptr % l.align ≡ 0
  served_aligned l flags ptr w v enough same h = elim (layout_flags_cases s.arch l v) [
    | inl named ↦ rw (named, ← same) h.aligned
    | inr (zero_flags, small, _) ↦
        rw v.is_power
          (quantum_divides s.arch v.lg_align ptr (rw v.is_power at small) (h.fundamental enough))
  ]

  debug_validate-passes :
      (l : Layout) (flags ptr : ℕ) (p : Process W)
      → IsLayout s.arch l
      → quantum s.arch ≤ l.size
      → flags % 64 ≡ layout_flags s.arch l
      → (ptr ≡ 0) ⊎ IsServed s l.size flags ptr p.world
      → debug_validate s b ptr l flags p ≡ (ok tt, p)
  unfolding debug_validate
  debug_validate-passes l flags ptr p v enough same (inl null) = rw null refl
  debug_validate-passes l flags ptr p v enough same (inr h) =
      ground (arith, h.class_size, h.usable, served_aligned l flags ptr p.world v enough same h)

  plain_flags :
      (l : Layout) → IsLayout s.arch l → layout_flags s.arch l % 64 ≡ layout_flags s.arch l
  plain_flags l v = omega (arith, layout_flags-lt s.arch l v)

  zeroed_flags :
      (l : Layout)
      → IsLayout s.arch l
      → bit_or (layout_flags s.arch l) 0x40 % 64 ≡ layout_flags s.arch l
  zeroed_flags l v =
      let below = layout_flags-lt s.arch l v in
      rw (bit_or-zero_bit (layout_flags s.arch l) below) (omega arith)

  -- In every profile, on a jemalloc whose answers are null or blocks as documented, no debug
  -- assertion of `alloc` fires: for a valid layout, after the callback of its slot, it ends with the
  -- pointer of the one `mallocx` call for the normalised size and flags, which are those of a
  -- release build.
  pub alloc_passes_checks :
      IsServing s
      → (l : Layout) (p : Process W) → IsLayout s.arch l
      → let q = observed s b b.on_alloc (λ hook. hook l) p in
        let (ptr, w) = s.mallocx (request_size s b l) (request_flags s b l) q.world in
        alloc s b l p ≡ (ok ptr, record q { world = w })
  unfolding alloc
  alloc_passes_checks serving l p v =
      let q = observed s b b.on_alloc (λ hook. hook l) p in
      let (ptr, w) = s.mallocx (request_size s b l) (request_flags s b l) q.world in
      let (v', _, enough) = adjust_layout-IsLayout s.arch l v in
      let passes =
        debug_validate-passes (adjust_layout s.arch l) (request_flags s b l) ptr
          (record q { world = w }) v' enough (plain_flags (adjust_layout s.arch l) v')
          (serving (request_size s b l) (request_flags s b l) q.world) in
      ground (arith, observe-returns s b b.on_alloc (λ hook. hook l) p, passes)

  zeroed_passes :
      IsServing s
      → (l : Layout) (p : Process W) → IsLayout s.arch l
      → let q = observed s b b.on_alloc_zeroed (λ hook. hook l) p in
        let (ptr, w) = s.mallocx (request_size s b l) (bit_or (request_flags s b l) 0x40) q.world in
        alloc_zeroed s b l p ≡ (ok ptr, record q { world = w })
  unfolding alloc_zeroed
  zeroed_passes serving l p v =
      let q = observed s b b.on_alloc_zeroed (λ hook. hook l) p in
      let flags = bit_or (request_flags s b l) 0x40 in
      let (ptr, w) = s.mallocx (request_size s b l) flags q.world in
      let l' = adjust_layout s.arch l in
      let (v', _, enough) = adjust_layout-IsLayout s.arch l v in
      let passes =
        debug_validate-passes l' flags ptr (record q { world = w }) v' enough (zeroed_flags l' v')
          (serving (request_size s b l) flags q.world) in
      ground (arith, observe-returns s b b.on_alloc_zeroed (λ hook. hook l) p, passes)

  resized_passes :
      IsReserving s
      → (old : ℕ) (l : Layout) (size : ℕ) (p : Process W)
      → let l' : Layout = record l { size = size } in
        IsLayout s.arch l'
        → let q = observed s b b.on_realloc (λ hook. hook l old size) p in
          let (ptr, w) = s.rallocx old (request_size s b l') (request_flags s b l') q.world in
          realloc s b old l size p ≡ (ok ptr, record q { world = w })
  unfolding realloc
  resized_passes serving old l size p v =
      let l0 : Layout = record l { size = size } in
      let q = observed s b b.on_realloc (λ hook. hook l old size) p in
      let (ptr, w) = s.rallocx old (request_size s b l0) (request_flags s b l0) q.world in
      let l' = adjust_layout s.arch l0 in
      let (v', _, enough) = adjust_layout-IsLayout s.arch l0 v in
      let passes =
        debug_validate-passes l' (request_flags s b l0) ptr (record q { world = w }) v' enough
          (plain_flags l' v') (serving old (request_size s b l0) (request_flags s b l0) q.world) in
      ground (arith, observe-returns s b b.on_realloc (λ hook. hook l old size) p, passes)

  -- The same holds of `alloc_zeroed`, whose flag word also asks for zeroed memory, and of `realloc`
  -- to a new size with which the layout is valid: in every profile they end, after the callback of
  -- their slot, with the pointer of their one call, so that no debug assertion fires.
  pub other_requests_pass_checks :
      IsServing s
      → IsReserving s
      → (old : ℕ) (l : Layout) (size : ℕ) (p : Process W) → IsLayout s.arch l
      → IsLayout s.arch (record l { size = size })
      → (let q = observed s b b.on_alloc_zeroed (λ hook. hook l) p in
          let (ptr, w) =
            s.mallocx (request_size s b l) (bit_or (request_flags s b l) 0x40) q.world in
          alloc_zeroed s b l p ≡ (ok ptr, record q { world = w }))
        × (let l' : Layout = record l { size = size } in
            let q = observed s b b.on_realloc (λ hook. hook l old size) p in
            let (ptr, w) = s.rallocx old (request_size s b l') (request_flags s b l') q.world in
            realloc s b old l size p ≡ (ok ptr, record q { world = w }))
  other_requests_pass_checks serving reserving old l size p v v' =
      (zeroed_passes serving l p v, resized_passes reserving old l size p v')
