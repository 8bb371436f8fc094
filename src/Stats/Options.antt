-- ===== src/Stats/Options.antt =====
-- `normalize_options` of jevmalloc/src/stats.rs.
pub mod Kept
use jevmalloc.Prelude.{
  ℕ, suc, Bool, not, ◌&&◌, List, [], ◌∷◌, ltb, ◌==◌, if◌then◌else◌, length, contains, take, set,
  replicate, codes,
}
use jevmalloc.System.{Errno, Outcome, ok, panic}
use jevmalloc.Ctl.Error.{invalid_argument}

abbrev pub print_options : List ℕ
print_options = codes "Jgmdablxeh"

abbrev pub print_options_capacity : ℕ
print_options_capacity = 11

-- Whether the loop stores an option byte: a known one that `buf[..len]` does not hold yet.
unfoldable pub is_fresh : ℕ → List ℕ → ℕ → Bool
is_fresh option buf len = contains print_options option && not (contains (take len buf) option)

-- The loop over `opts.bytes()`, from a buffer with `len` bytes in use. The store `buf[len] = option`
-- panics past the end of the buffer.
unfoldable pub options_loop : Errno → List ℕ → List ℕ → ℕ → Outcome (List ℕ × ℕ)
unfolding invalid_argument is_fresh
options_loop c [] buf len = ok (buf, len)
options_loop c (option ∷ rest) buf len =
    let stored = options_loop c rest (set buf len option) (suc len) in
    let skipped = options_loop c rest buf len in
    if option == 0
    then invalid_argument c
    else if is_fresh option buf len
    then (if ltb len (length buf) then stored else panic)
    else skipped

-- `normalize_options`: the buffer and the number of option bytes before its terminator.
unfoldable pub normalize_options : Errno → List ℕ → Outcome (List ℕ × ℕ)
unfolding options_loop
normalize_options c opts = options_loop c opts (replicate print_options_capacity 0) 0
