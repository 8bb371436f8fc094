-- ===== src/Arena/Index.antt =====
-- Arena indices of jevmalloc/src/arena.rs.
use jevmalloc.Prelude.{ℕ, ◌^◌, ltb, leb, if◌then◌else◌}
use jevmalloc.System.{usize_bits, System, Outcome, ok}
use jevmalloc.Ctl.Error.{invalid_argument}

abbrev pub arena_index_limit : ℕ
arena_index_limit = 4095

-- `size_of::<c_uint>()`
abbrev pub uint_bytes : ℕ
uint_bytes = 4

abbrev pub uint_mod : ℕ
uint_mod = 2 ^ 32

module _ {W : Type 0} (s : System W) where
  -- `usize::try_from(index).map_err(|_| Error::invalid_argument())` on a `c_uint`.
  unfoldable pub usize_try_from : ℕ → Outcome ℕ
  unfolding invalid_argument usize_bits
  usize_try_from index =
      if ltb index (2 ^ usize_bits s.arch) then ok index else invalid_argument s.errno

  -- `c_uint::try_from(index).map_err(|_| Error::invalid_argument())` on a `usize`.
  unfoldable pub uint_try_from : ℕ → Outcome ℕ
  unfolding invalid_argument
  uint_try_from index = if ltb index uint_mod then ok index else invalid_argument s.errno

  unfoldable pub validated_index : ℕ → Outcome ℕ
  unfolding uint_try_from invalid_argument
  validated_index index =
      if leb arena_index_limit index then invalid_argument s.errno else uint_try_from index
