-- ===== src/Ctl/Raw.antt =====
-- jevmalloc/src/ctl/raw.rs: name translation and the generic MIB operations.
-- A Rust type stands for its size in bytes, and a value of it for its bit pattern.
use jevmalloc.Prelude.{
  ℕ, ◌+◌, ◌-◌, Bool, false, true, not, ◌||◌, Option, none, some, List, [], ◌∷◌, ◌++◌, ltb, leb,
  ◌==◌, if◌then◌else◌, length, contains, replicate, tabulate,
}
use jevmalloc.System.{
  Outcome, ok, panic, Reply, Translation, System, Process, Action, pure, lift, assert, ◌>>=◌, ◌>>◌,
}
use jevmalloc.Ctl.Error.{invalid_argument, into_result}

-- `Key`, an `ArrayVec<usize, KEY_SEGS>`.
abbrev pub Key : Type 0
Key = List ℕ

abbrev pub name_max : ℕ
name_max = 128

abbrev pub key_segs : ℕ
key_segs = 8

-- `name.split('.').count()`, on the bytes of the name.
unfoldable pub split_count : List ℕ → ℕ
split_count [] = 1
split_count (c ∷ r) = (if c == b'.' then 1 else 0) + split_count r

abbrev pub is_empty : List ℕ → Bool
is_empty [] = true
is_empty (_ ∷ _) = false

-- The guard of `mibs`.
unfoldable pub is_rejected : List ℕ → Bool
is_rejected bytes =
    is_empty bytes
    || leb name_max (length bytes)
    || contains bytes 0
    || ltb key_segs (split_count bytes)

-- `name_buf`: the bytes of the name in a zeroed buffer of `NAME_MAX` bytes.
unfoldable pub name_buf : List ℕ → List ℕ
name_buf bytes = bytes ++ replicate (name_max - length bytes) 0

module _ {W : Type 0} (s : System W) where
  -- The two FFI calls, as actions on the process.
  abbrev pub nametomib : List ℕ → Action W Translation
  nametomib name p =
      let (t, w) = s.mallctlnametomib name key_segs p.world in (ok t, record p { world = w })

  abbrev pub bymib : Key → Option (Option ℕ × ℕ) → Option (ℕ × ℕ) → Action W Reply
  bymib key old new p =
      let (r, w) = s.mallctlbymib key old new p.world in (ok r, record p { world = w })

  -- The part of `mibs` behind the FFI call.
  unfoldable pub checked_key : ℕ → Translation → Action W Key
  checked_key segments t = do
    lift (into_result t.status)
    if not (t.key_len == segments) || ltb key_segs t.key_len
        then lift (invalid_argument s.errno)
        else pure (tabulate t.key_len t.slots)

  unfoldable pub mibs : List ℕ → Action W Key
  mibs bytes =
      if is_rejected bytes
      then lift (invalid_argument s.errno)
      else (do t ← nametomib (name_buf bytes); checked_key (split_count bytes) t)

  -- `get::<T>`, at the size of `T`.
  unfoldable pub get : ℕ → Key → Action W ℕ
  get expected key = do
    assert (ltb 0 expected)
    r ← bymib key (some (none, expected)) none
    lift (into_result r.status)
    assert (r.len == expected)
    pure r.value

  -- `get_in_place::<T>`; the slot is read back on every path, beside the outcome.
  unfoldable pub get_in_place : ℕ → Key → ℕ → Process W → (Outcome (Unit {0}) × ℕ) × Process W
  get_in_place expected key value p =
      if ltb 0 expected
      then (let (r, w) = s.mallctlbymib key (some (some value, expected)) none p.world in
          let checked = (do lift (into_result r.status); assert (r.len == expected)) in
          let (o, p') = checked (record p { world = w }) in ((o, r.value), p'))
      else ((panic, value), p)

  -- `set::<T>`
  unfoldable pub set : ℕ → Key → ℕ → Action W (Unit {0})
  set value_len key value = do
    assert (ltb 0 value_len)
    r ← bymib key none (some (value, value_len))
    lift (into_result r.status)

  -- `update::<I, O>`, at the sizes of `I` and `O`.
  unfoldable pub update : ℕ → ℕ → Key → ℕ → Action W ℕ
  update input_len expected key value = do
    assert (ltb 0 input_len)
    assert (ltb 0 expected)
    r ← bymib key (some (none, expected)) (some (value, input_len))
    lift (into_result r.status)
    assert (r.len == expected)
    pure r.value

  -- `xchg::<T>`
  unfoldable pub xchg : ℕ → Key → ℕ → Action W ℕ
  xchg size key value = update size size key value

  -- `notify`
  unfoldable pub notify : Key → Action W (Unit {0})
  notify key = do r ← bymib key none none; lift (into_result r.status)
