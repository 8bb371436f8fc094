-- ===== src/Ctl/Names.antt =====
-- Facts about name translation: what `mibs` accepts, and the shape of the key that it returns.
use jevmalloc.Prelude.{
  ◌+◌, ◌==◌, if◌then◌else◌, zero, suc, ◌-◌, ◌<◌, ◌⊎◌, refl, [], ◌∷◌, ◌++◌, contains, replicate,
  length-append, length-replicate, ℕ, ◌≤◌, ◌≡◌, ◌≢◌, inl, inr, ap, true, false, arith, List,
  Bool-cases, length, tabulate, length-tabulate,
}
use jevmalloc.System.{Outcome, Translation, ok, err, panic, System, Process}
use jevmalloc.Ctl.Error.{invalid_argument, from_code, into_result}
use jevmalloc.Ctl.Raw.{
  Key, name_max, key_segs, is_rejected, split_count, name_buf, checked_key, mibs,
}

-- The bytes before the first NUL, which is what C reads of a name.
unfoldable pub c_string : List ℕ → List ℕ
c_string [] = []
c_string (zero ∷ _) = []
c_string (suc c ∷ rest) = suc c ∷ c_string rest

c_string-padded :
    (bytes : List ℕ) (n : ℕ)
    → contains bytes 0 ≡ false
    → c_string (bytes ++ replicate (suc n) 0) ≡ bytes
unfolding c_string
c_string-padded [] n h = refl
c_string-padded (zero ∷ rest) n h = absurd (ground arith)
c_string-padded (suc c ∷ rest) n h = ap (λ r. suc c ∷ r) (c_string-padded rest n (ground arith))

-- An accepted name fits the buffer with its terminator, and C reads exactly the name.
c_string-name_buf :
    (bytes : List ℕ)
    → is_rejected bytes ≡ false
    → (c_string (name_buf bytes) ≡ bytes) × (length (name_buf bytes) ≡ name_max)
unfolding is_rejected name_buf
c_string-name_buf bytes h =
    let short : length bytes < name_max = ground arith in
    let free : contains bytes 0 ≡ false = ground arith in
    let n = name_max - suc (length bytes) in
    let room : name_max - length bytes ≡ suc n = omega arith in
    (
      rw room (c_string-padded bytes n free),
      omega (
        arith,
        length-append bytes (replicate (name_max - length bytes) 0),
        length-replicate {A = ℕ} (name_max - length bytes) 0,
      ),
    )

-- The dots of a name.
abbrev pub dots : List ℕ → ℕ
dots [] = 0
dots (c ∷ rest) = if c == 46 then 1 + dots rest else dots rest

split_count_lem : (bytes : List ℕ) → split_count bytes ≡ 1 + dots bytes
unfolding split_count
split_count_lem [] = refl
split_count_lem (c ∷ rest) = ground (arith, split_count_lem rest)

-- Names that cannot have a key, and the names that are passed on.
abbrev pub IsMalformed : List ℕ → Type 0
IsMalformed bytes =
    (bytes ≡ []) ⊎ (128 ≤ length bytes) ⊎ (contains bytes 0 ≡ true) ⊎ (8 < 1 + dots bytes)

abbrev pub IsWellFormed : List ℕ → Type 0
IsWellFormed bytes =
    (bytes ≢ []) × (length bytes < 128) × (contains bytes 0 ≡ false) × (1 + dots bytes ≤ 8)

is_rejected-IsMalformed : (bytes : List ℕ) → is_rejected bytes ≡ true → IsMalformed bytes
unfolding is_rejected
is_rejected-IsMalformed [] h = inl refl
is_rejected-IsMalformed (c ∷ rest) h = inr (ground (arith, split_count_lem (c ∷ rest)))

is_rejected-IsWellFormed : (bytes : List ℕ) → is_rejected bytes ≡ false → IsWellFormed bytes
unfolding is_rejected
is_rejected-IsWellFormed [] h = absurd (ground arith)
is_rejected-IsWellFormed (c ∷ rest) h = ground (arith, split_count_lem (c ∷ rest))

-- What the answer of jemalloc to a name of `n` segments is to become.
abbrev pub key_in : {W : Type 0} → System W → ℕ → Translation → Outcome Key
key_in s n t =
    if t.status == 0
    then (if t.key_len == n
        then ok (tabulate n t.slots)
        else err (record { code = s.errno.einval }))
    else err (record { code = t.status })

module _ {W : Type 0} (s : System W) where
  pub checked_key-eq-ok :
      (n : ℕ) (t : Translation) (p : Process W) {key : Key}
      → (checked_key s n t p).0 ≡ ok key
      → (key ≡ tabulate n t.slots) × (n ≤ key_segs)
  unfolding checked_key invalid_argument into_result from_code
  checked_key-eq-ok n t p h = ground arith

  length-checked_key :
      (n : ℕ) (t : Translation) (p : Process W) {key : Key}
      → (checked_key s n t p).0 ≡ ok key
      → (length key ≡ n) × (length key ≤ key_segs)
  length-checked_key n t p h =
      let (e, fits) = checked_key-eq-ok n t p h in
      omega (arith, ap (length {A = ℕ}) e, length-tabulate n t.slots)

  -- Every key has one component for each segment of its name, and fits its inline storage.
  pub length-mibs :
      (bytes : List ℕ) (p : Process W) {key : Key}
      → (mibs s bytes p).0 ≡ ok key
      → (length key ≡ split_count bytes) × (length key ≤ key_segs)
  unfolding mibs invalid_argument from_code
  length-mibs bytes p {key = k} h = elim (Bool-cases (is_rejected bytes)) [
    | inl bad ↦ ground arith
    | inr good ↦
        (let (t, w) = s.mallctlnametomib (name_buf bytes) key_segs p.world in
          length-checked_key (split_count bytes) t (record p { world = w }) (rw good at h))
  ]

  -- Translation touches none of the crate's statics.
  pub caches-mibs : (bytes : List ℕ) (p : Process W) → (mibs s bytes p).1.caches ≡ p.caches
  unfolding mibs checked_key into_result invalid_argument
  caches-mibs bytes p = ground arith

  checked_key-ne-panic :
      s.errno.einval ≢ 0
      → (n : ℕ) (t : Translation) (p : Process W) → (checked_key s n t p).0 ≢ panic
  unfolding checked_key invalid_argument into_result from_code
  checked_key-ne-panic nz n t p = ground arith

  -- A translation returns a key or an error: it never panics.
  pub mibs-ne-panic :
      s.errno.einval ≢ 0 → (bytes : List ℕ) (p : Process W) → (mibs s bytes p).0 ≢ panic
  unfolding mibs invalid_argument from_code
  mibs-ne-panic nz bytes p = elim (Bool-cases (is_rejected bytes)) [
    | inl bad ↦ rw bad (ground arith)
    | inr good ↦
        (let (t, w) = s.mallctlnametomib (name_buf bytes) key_segs p.world in
          rw good (checked_key-ne-panic nz (split_count bytes) t (record p { world = w })))
  ]

  checked_key_lem :
      s.errno.einval ≢ 0
      → (n : ℕ) → n ≤ 8
      → (t : Translation) (p : Process W) → checked_key s n t p ≡ (key_in s n t, p)
  unfolding checked_key invalid_argument into_result from_code
  checked_key_lem nz n fits t p = ground arith

  -- A name that is empty, has 128 bytes or more, holds a NUL or has more than eight segments is
  -- `EINVAL` without a call of jemalloc. Any other is handed over once, in a buffer of 128 bytes in
  -- which C reads exactly the name, with room for eight components; the outcome is the status of
  -- that call if it is not zero, `EINVAL` if it wrote another number of components than the name has
  -- segments, and otherwise the components it wrote.
  pub mibs_cases :
      s.errno.einval ≢ 0
      → (bytes : List ℕ) (p : Process W)
      → (IsMalformed bytes × (mibs s bytes p ≡ (err (record { code = s.errno.einval }), p)))
        ⊎ (IsWellFormed bytes
            × ((name : List ℕ) × (c_string name ≡ bytes)
                × (length name ≡ 128)
                × (let (t, w) = s.mallctlnametomib name 8 p.world in
                    mibs s bytes p ≡ (key_in s (1 + dots bytes) t, record p { world = w }))))
  unfolding mibs invalid_argument
  mibs_cases nz bytes p = elim (Bool-cases (is_rejected bytes)) [
    | inl bad ↦ inl (is_rejected-IsMalformed bytes bad, rw bad (ground arith))
    | inr good ↦
        (let (seen, long) = c_string-name_buf bytes good in
          let well = is_rejected-IsWellFormed bytes good in
          let (_, _, _, fits) = well in
          let (t, w) = s.mallctlnametomib (name_buf bytes) 8 p.world in
          inr (
            well,
            (
              name_buf bytes,
              seen,
              long,
              rw good (
                  rw (split_count_lem bytes)
                    (checked_key_lem nz (1 + dots bytes) fits t (record p { world = w }))),
            ),
          ))
  ]
