-- ===== src/Ctl/Messages.antt =====
-- The messages of errors: `Display` of jevmalloc/src/ctl/error.rs, arena/destroy_error.rs and
-- thread/cache/destroy_error.rs, as the bytes that are written. `core::fmt` writes an integer in
-- decimal, with a sign before a negative one.
use jevmalloc.Prelude.{
  ℕ, zero, suc, ◌+◌, ◌-◌, ◌/◌, ◌%◌, ◌^◌, none, some, List, ◌∷◌, ◌++◌, ltb, codes, if◌then◌else◌,
}
use jevmalloc.System.{Error, Errno}
use jevmalloc.Ctl.Error.{description}

-- The digits of a number, the first one first, before `rest`; a pattern of 64 bits has at most 20.
unfoldable pub digits : ℕ → ℕ → List ℕ → List ℕ
digits zero n rest = rest
digits (suc places) n rest =
    let more = digits places (n / 10) ((b'0' + n % 10) ∷ rest) in
    if ltb n 10 then (b'0' + n) ∷ rest else more

abbrev pub places : ℕ
places = 20

abbrev pub decimal : ℕ → List ℕ → List ℕ
decimal = digits places

-- A `c_int`, given as its bit pattern.
unfoldable pub signed_decimal : ℕ → List ℕ → List ℕ
signed_decimal code rest =
    if ltb code (2 ^ 31) then decimal code rest else b'-' ∷ decimal (2 ^ 32 - code) rest

-- The text before the number.
unfoldable pub described : Errno → Error → List ℕ
described c e = elim (description c e) [
  | some text ↦ codes text
  | none ↦ codes "Unknown jemalloc error"
]

-- `Display for Error`
unfoldable pub message : Errno → Error → List ℕ
message c e = described c e ++ (codes " (errno " ++ signed_decimal e.code (codes ")"))

-- `Display for ArenaDestroyError` and `Display for ThreadCacheDestroyError`, by their two parts.
unfoldable pub arena_message : Errno → ℕ → Error → List ℕ
arena_message c index e =
    codes "failed to destroy arena " ++ decimal index (codes ": " ++ message c e)

unfoldable pub cache_message : Errno → ℕ → Error → List ℕ
cache_message c index e =
    codes "failed to destroy explicit thread cache " ++ decimal index (codes ": " ++ message c e)
