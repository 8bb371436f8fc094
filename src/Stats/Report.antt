-- ===== src/Stats/Report.antt =====
-- The print buffer refines concatenation: a report is returned whole or refused.
use mathlib.Core.List.{append-nil, append_assoc}
use jevmalloc.Prelude.{
  ℕ, ◌+◌, ◌^◌, ◌≤◌, ◌<◌, ◌≡◌, refl, sym, ap, ◌∙◌, inl, inr, true, false, ◌&&◌, List, [], ◌∷◌, ◌++◌,
  ltb, leb, if◌then◌else◌, length, take, drop, leb→le, length-append, length-take, length-drop,
  take-append, arith, Bool-cases,
}
use jevmalloc.System.{System, Outcome, ok, usize_bits}
use jevmalloc.Ctl.Error.{insufficient_space, invalid_utf8}
use jevmalloc.Stats.Buffer.{PrintBuffer, new, copy_at, write, write_all, finish}

-- All fragments, one after the other.
abbrev pub joined : List (List ℕ) → List ℕ
joined [] = []
joined (fragment ∷ rest) = fragment ++ joined rest

length-copy_at :
    (buf : List ℕ) (at : ℕ) (fragment : List ℕ)
    → at + length fragment ≤ length buf
    → length (copy_at buf at fragment) ≡ length buf
unfolding copy_at
length-copy_at buf at fragment h = omega (
  arith,
  length-append (take at buf) (fragment ++ drop (at + length fragment) buf),
  length-append fragment (drop (at + length fragment) buf),
  length-take at buf,
  length-drop (at + length fragment) buf,
)

-- After a copy, the used part is the old used part and the fragment.
take-copy_at :
    (buf : List ℕ) (at : ℕ) (fragment : List ℕ)
    → at + length fragment ≤ length buf
    → take (at + length fragment) (copy_at buf at fragment) ≡ take at buf ++ fragment
unfolding copy_at
take-copy_at buf at fragment h =
    let rest = drop (at + length fragment) buf in
    let used : length (take at buf ++ fragment) ≡ at + length fragment =
      omega (arith, length-append (take at buf) fragment, length-take at buf) in
    rw (← append_assoc (take at buf) fragment rest) (
      ap (λ n. take n ((take at buf ++ fragment) ++ rest)) (sym used)
      ∙ take-append (take at buf ++ fragment) rest)

module _ {W : Type 0} (s : System W) where
  -- The buffer holds `written` so far, and has not overflowed.
  record Holds (b : PrintBuffer) (written : List ℕ) : Type 0 where
    contents : take b.len b.buf ≡ written
    used : b.len ≡ length written
    open_buffer : b.overflowed ≡ false
    bounded : b.len ≤ length b.buf

  write-fits :
      (b : PrintBuffer) (written fragment : List ℕ)
      → length b.buf < 2 ^ usize_bits s.arch
      → Holds b written
      → length (written ++ fragment) ≤ length b.buf
      → Holds (write s b fragment) (written ++ fragment)
        × (length (write s b fragment).buf ≡ length b.buf)
  unfolding write
  write-fits b written fragment word h fits =
      let total : length (written ++ fragment) ≡ b.len + length fragment =
        omega (arith, length-append written fragment, h.used) in
      let room : (ltb (b.len + length fragment) (2 ^ usize_bits s.arch)
            && leb (b.len + length fragment) (length b.buf))
          ≡ true =
        ground arith in
      rw (h.open_buffer, room)
        (
          record {
            contents =
                take-copy_at b.buf b.len fragment (omega arith)
                ∙ ap (λ r. r ++ fragment) h.contents;
            used = sym total;
            open_buffer = refl;
            bounded = rw (length-copy_at b.buf b.len fragment (omega arith)) (omega arith);
          },
          length-copy_at b.buf b.len fragment (omega arith),
        )

  write-refuses :
      (b : PrintBuffer) (written fragment : List ℕ)
      → Holds b written
      → length b.buf < length (written ++ fragment)
      → (write s b fragment).overflowed ≡ true
  unfolding write
  write-refuses b written fragment h over =
      let total : length (written ++ fragment) ≡ b.len + length fragment =
        omega (arith, length-append written fragment, h.used) in
      ground arith

  write_all-overflowed :
      (b : PrintBuffer) (fragments : List (List ℕ))
      → b.overflowed ≡ true
      → (write_all s b fragments).overflowed ≡ true
  unfolding write_all write
  write_all-overflowed b [] h = h
  write_all-overflowed b (fragment ∷ rest) h =
      write_all-overflowed (write s b fragment) rest (ground arith)

  write_all-fits :
      (fragments : List (List ℕ)) (b : PrintBuffer) (written : List ℕ)
      → length b.buf < 2 ^ usize_bits s.arch
      → Holds b written
      → length (written ++ joined fragments) ≤ length b.buf
      → Holds (write_all s b fragments) (written ++ joined fragments)
  unfolding write_all
  write_all-fits [] b written word h fits = rw append-nil h
  write_all-fits (fragment ∷ rest) b written word h fits =
      let regroup = append_assoc written fragment (joined rest) in
      let (h', same) = write-fits b written fragment word h (
        omega (
          arith,
          ap (length {A = ℕ}) regroup,
          length-append (written ++ fragment) (joined rest),
        )) in
      rw (← regroup) (
        write_all-fits rest (write s b fragment) (written ++ fragment) (rw same word) h'
          (rw (same, regroup) fits))

  write_all-refuses :
      (fragments : List (List ℕ)) (b : PrintBuffer) (written : List ℕ)
      → length b.buf < 2 ^ usize_bits s.arch
      → Holds b written
      → length b.buf < length (written ++ joined fragments)
      → (write_all s b fragments).overflowed ≡ true
  unfolding write_all
  write_all-refuses [] b written word h over =
      absurd (omega (arith, h.used, h.bounded, length-append written []))
  write_all-refuses (fragment ∷ rest) b written word h over =
      elim (Bool-cases (leb (length (written ++ fragment)) (length b.buf))) [
        | inl fits ↦
            (let (h', same) = write-fits b written fragment word h (leb→le _ _ fits) in
              write_all-refuses rest (write s b fragment) (written ++ fragment) (rw same word) h'
                (rw (same, append_assoc written fragment (joined rest)) over))
        | inr long ↦
            write_all-overflowed (write s b fragment) rest
              (write-refuses b written fragment h (ground arith))
      ]

  new-Holds : (buf : List ℕ) → Holds (new buf) []
  unfolding new
  new-Holds buf = record { contents = refl; used = refl; open_buffer = refl; bounded = omega arith }

  -- The abstract view of a report: all fragments joined, if they fit and are UTF-8.
  abbrev pub report : List ℕ → List ℕ → Outcome (List ℕ)
  report buf text =
      if leb (length text) (length buf)
      then (if s.is_utf8 text then ok text else invalid_utf8 s.errno)
      else insufficient_space s.errno

  -- However jemalloc cuts its report into fragments, the buffer returns all of it joined: whole if it
  -- fits, `EILSEQ` if the whole is not UTF-8, and `ENOSPC` exactly when the whole does not fit.
  pub finish-write_all :
      (buf : List ℕ) (fragments : List (List ℕ))
      → length buf < 2 ^ usize_bits s.arch
      → finish s (write_all s (new buf) fragments) ≡ report buf (joined fragments)
  unfolding finish new
  finish-write_all buf fragments word =
      elim (Bool-cases (leb (length (joined fragments)) (length buf))) [
        | inl fits ↦
            (let h = write_all-fits fragments (new buf) [] word (new-Holds buf) (leb→le _ _ fits) in
              rw (fits, h.open_buffer, h.contents) refl)
        | inr long ↦
            (let e = write_all-refuses fragments (new buf) [] word (new-Holds buf) (ground arith) in
              rw (long, e) refl)
      ]
