-- ===== src/Stats/Buffer.antt =====
-- `PrintBuffer` of jevmalloc/src/stats.rs.
use jevmalloc.Prelude.{
  ℕ, ◌+◌, ◌^◌, Bool, true, false, ◌&&◌, List, [], ◌∷◌, ◌++◌, ltb, leb, if◌then◌else◌, length, take,
  drop,
}
use jevmalloc.System.{Outcome, ok, System, usize_bits}
use jevmalloc.Ctl.Error.{insufficient_space, invalid_utf8}

pub record PrintBuffer : Type 0 where
  pub buf : List ℕ
  pub len : ℕ
  pub overflowed : Bool

-- `PrintBuffer::new`
unfoldable pub new : List ℕ → PrintBuffer
new buf = record { buf = buf; len = 0; overflowed = false }

-- `output.copy_from_slice(fragment)` for `output = &mut buf[at..at + fragment.len()]`.
unfoldable pub copy_at : List ℕ → ℕ → List ℕ → List ℕ
copy_at buf at fragment = take at buf ++ (fragment ++ drop (at + length fragment) buf)

module _ {W : Type 0} (s : System W) where
  -- `PrintBuffer::write`: `checked_add`, then `get_mut`, then the copy.
  unfoldable pub write : PrintBuffer → List ℕ → PrintBuffer
  write b fragment =
      let end = b.len + length fragment in
      if b.overflowed
      then b
      else if ltb end (2 ^ usize_bits s.arch) && leb end (length b.buf)
      then record b { buf = copy_at b.buf b.len fragment; len = end }
      else record b { overflowed = true }

  unfoldable pub finish : PrintBuffer → Outcome (List ℕ)
  finish b =
      if b.overflowed
      then insufficient_space s.errno
      else if s.is_utf8 (take b.len b.buf)
      then ok (take b.len b.buf)
      else invalid_utf8 s.errno

  -- The writer's calls, one for each fragment that jemalloc hands over.
  unfoldable pub write_all : PrintBuffer → List (List ℕ) → PrintBuffer
  write_all b [] = b
  write_all b (fragment ∷ rest) = write_all (write b fragment) rest
