-- ===== src/BuildScript/Bytes.antt =====
-- The operations on strings and paths that the build script uses, on bytes.
use jevmalloc.Prelude.{
  ℕ, zero, suc, ◌-◌, Bool, true, false, ◌&&◌, ◌||◌, Option, none, some, List, [], ◌∷◌, ◌++◌, leb,
  ltb, ◌==◌, if◌then◌else◌, same_bytes, codes, map, length, drop, get_elem?,
}

abbrev pub Text : Type 0
Text = List ℕ

abbrev pub starts_with : Text → Text → Bool
starts_with s [] = true
starts_with [] (c ∷ prefix) = false
starts_with (d ∷ s) (c ∷ prefix) = d == c && starts_with s prefix

-- `str::contains` with a string.
abbrev pub contains_text : Text → Text → Bool
contains_text [] needle = starts_with [] needle
contains_text (c ∷ s) needle = starts_with (c ∷ s) needle || contains_text s needle

abbrev pub ends_with : Text → Text → Bool
ends_with [] suffix = same_bytes [] suffix
ends_with (c ∷ s) suffix = same_bytes (c ∷ s) suffix || ends_with s suffix

-- `to_uppercase` on ASCII text.
abbrev pub upper : ℕ → ℕ
upper c = if leb 97 c && leb c 122 then c - 32 else c

abbrev pub to_uppercase : Text → Text
to_uppercase s = map upper s

-- `replace` of one byte.
abbrev pub replace_byte : ℕ → ℕ → Text → Text
replace_byte old new s = map (λ c. if c == old then new else c) s

-- `replace` of a pattern, with the number of its bytes that are still to be skipped.
abbrev pub replace_from : Text → Text → ℕ → Text → Text
replace_from old new n [] = []
replace_from old new (suc n) (c ∷ s) = replace_from old new n s
replace_from old new zero (c ∷ s) = elim (starts_with (c ∷ s) old) [
  | true ↦ new ++ replace_from old new (length old - 1) s
  | false ↦ c ∷ replace_from old new zero s
]

-- `split_once` at a byte.
abbrev pub split_once : ℕ → Text → Option (Text × Text)
split_once b [] = none
split_once b (c ∷ s) = elim (c == b) [
  | true ↦ some ([], s)
  | false ↦ elim (split_once b s) [ none ↦ none | some (l, r) ↦ some (c ∷ l, r) ]
]

-- The split at the last place of a byte.
abbrev pub split_last : ℕ → Text → Option (Text × Text)
split_last b [] = none
split_last b (c ∷ s) = elim (split_last b s) [
  | some (l, r) ↦ some (c ∷ l, r)
  | none ↦ if c == b then some ([], s) else none
]

-- `join(" ")`
abbrev pub join_spaces : List Text → Text
join_spaces [] = []
join_spaces (w ∷ []) = w
join_spaces (w ∷ v ∷ rest) = w ++ (codes " " ++ join_spaces (v ∷ rest))

-- `Path::join` with a relative path.
abbrev pub join_path : Text → Text → Text
join_path dir name = dir ++ (codes "/" ++ name)

-- `file_name`, `file_stem` and `parent` of a path without a trailing or a doubled separator and
-- without `.` components.
abbrev pub last_component : Text → Text
last_component path = elim (split_last b'/' path) [ none ↦ path | some (_, name) ↦ name ]

abbrev pub file_name : Text → Option Text
file_name path =
    let name = last_component path in
    if same_bytes name [] || same_bytes name (codes "..") then none else some name

abbrev pub stem_of : Text → Text
stem_of name = elim (split_last b'.' name) [
  | none ↦ name
  | some ([], _) ↦ name
  | some (c ∷ stem, _) ↦ c ∷ stem
]

abbrev pub file_stem : Text → Option Text
file_stem path = elim (file_name path) [ none ↦ none | some name ↦ some (stem_of name) ]

abbrev pub parent : Text → Option Text
parent path = elim (split_last b'/' path) [
  | none ↦ if same_bytes path [] then none else some []
  | some ([], name) ↦ if same_bytes name [] then none else some (codes "/")
  | some (c ∷ dir, _) ↦ some (c ∷ dir)
]

-- `&s[3..]`, which panics past the end and inside a character.
abbrev pub from_third : Text → Option Text
from_third s = if ltb (length s) 3 then none else elim (get_elem? s 3) [
  | none ↦ some []
  | some c ↦ if leb 128 c && leb c 191 then none else some (drop 3 s)
]
