-- ===== src/Ctl/Value.antt =====
-- jevmalloc/src/ctl/value.rs: booleans and C strings of typed controls.
use jevmalloc.Prelude.{ℕ, Bool, not, ◌==◌, if◌then◌else◌}
use jevmalloc.System.{System, Action, pure, lift, ◌>>=◌}
use jevmalloc.Ctl.Error.{bad_address}
use jevmalloc.Ctl.Raw.{Key, get, xchg}
use jevmalloc.System.{usize_bytes}

-- `size_of::<CBool>()`
unfoldable pub bool_bytes : Bool → ℕ
bool_bytes msvc = if msvc then 4 else 1

unfoldable pub encode_bool : Bool → ℕ
encode_bool value = if value then 1 else 0

unfoldable pub decode_bool : ℕ → Bool
decode_bool value = not (value == 0)

module _ {W : Type 0} (s : System W) where
  unfoldable pub get_bool : Key → Action W Bool
  get_bool key = do value ← get s (bool_bytes s.msvc) key; pure (decode_bool value)

  -- The address of the string; `from_ptr` of the system reads it.
  unfoldable pub get_cstr : Key → Action W ℕ
  get_cstr key = do
    value ← get s (usize_bytes s.arch) key
    if value == 0 then lift (bad_address s.errno) else pure value

  unfoldable pub xchg_bool : Key → Bool → Action W Bool
  xchg_bool key value = do
    previous ← xchg s (bool_bytes s.msvc) key (encode_bool value)
    pure (decode_bool previous)
