-- ===== src/Stats/Options/Kept.antt =====
-- `normalize_options` never panics, and keeps each recognised option once.

use jevmalloc.Prelude.{
  ℕ, suc, ◌+◌, ◌-◌, ◌≤◌, ◌<◌, ◌≡◌, refl, ap, inl, inr, Bool, true, false, not, ◌&&◌, ◌||◌, List, [],
  ◌∷◌, ◌++◌, ltb, lt→ltb, ◌==◌, ==_iff, if◌then◌else◌, length, contains, set, get_elem?, replicate,
  some, length-append, length-replicate, take-append, arith, Bool-cases,
}
use jevmalloc.System.{Errno, ok}
use jevmalloc.Ctl.Error.{invalid_argument}
use jevmalloc.Stats.Options.{
  print_options, print_options_capacity, is_fresh, options_loop, normalize_options,
}

-- The options that are kept, by plain recursion: the used ones, then each new recognised one.
abbrev pub is_new : ℕ → List ℕ → Bool
is_new option used = contains print_options option && not (contains used option)

pub kept : List ℕ → List ℕ → List ℕ
kept used [] = used
kept used (option ∷ rest) = kept (if is_new option used then used ++ option ∷ [] else used) rest

-- The buffer when these bytes are in use.
abbrev pub padded : List ℕ → List ℕ
padded used = used ++ replicate (print_options_capacity - length used) 0

contains-snoc :
    (used : List ℕ) (o x : ℕ) → contains (used ++ o ∷ []) x ≡ (contains used x || (o == x))
contains-snoc [] o x = ground arith
contains-snoc (y ∷ used) o x = ground (arith, contains-snoc used o x)

-- How many of the given options are not in use.
missing : List ℕ → List ℕ → ℕ
missing [] used = 0
missing (o ∷ options) used = (if contains used o then 0 else 1) + missing options used

missing-snoc_le :
    (options used : List ℕ) (o : ℕ) → missing options (used ++ o ∷ []) ≤ missing options used
unfolding missing
missing-snoc_le [] used o = omega arith
missing-snoc_le (x ∷ options) used o =
    ground (arith, contains-snoc used o x, missing-snoc_le options used o)

missing-snoc :
    (options used : List ℕ) (o : ℕ)
    → contains options o ≡ true
    → contains used o ≡ false
    → missing options (used ++ o ∷ []) < missing options used
unfolding missing
missing-snoc [] used o h k = cc
missing-snoc (x ∷ options) used o h k = elim (Bool-cases (x == o)) [
  | inl same ↦ ground (arith, contains-snoc used o x, missing-snoc_le options used o)
  | inr other ↦ ground (arith, contains-snoc used o x, missing-snoc options used o)
]

-- Room for every option that is not in use yet.
abbrev HasRoom : List ℕ → Type 0
HasRoom used = length used + missing print_options used ≤ 10

snoc-HasRoom :
    (used : List ℕ) (o : ℕ) → HasRoom used → is_new o used ≡ true → HasRoom (used ++ o ∷ [])
snoc-HasRoom used o h new = omega (
  arith,
  length-append used (o ∷ []),
  missing-snoc print_options used o (ground arith) (ground arith),
)

set-append :
    (used rest : List ℕ) (z o : ℕ)
    → set (used ++ z ∷ rest) (length used) o ≡ (used ++ o ∷ []) ++ rest
set-append [] rest z o = refl
set-append (x ∷ used) rest z o = ap (λ r. x ∷ r) (set-append used rest z o)

set-padded :
    (used : List ℕ) (o : ℕ)
    → length used < print_options_capacity
    → set (padded used) (length used) o ≡ padded (used ++ o ∷ [])
set-padded used o h =
    let left = print_options_capacity - length (used ++ o ∷ []) in
    let more : print_options_capacity - length used ≡ suc left =
      omega (arith, length-append used (o ∷ [])) in
    rw more (set-append used (replicate left 0) 0 o)

get_elem?-append :
    (used rest : List ℕ) (z : ℕ) → get_elem? (used ++ z ∷ rest) (length used) ≡ some z
get_elem?-append [] rest z = refl
get_elem?-append (x ∷ used) rest z = get_elem?-append used rest z

length-padded : (used : List ℕ) → HasRoom used → length (padded used) ≡ print_options_capacity
length-padded used h =
    let left = print_options_capacity - length used in
    omega (arith, length-append used (replicate left 0), length-replicate {A = ℕ} left 0)

is_fresh-padded : (o : ℕ) (used : List ℕ) → is_fresh o (padded used) (length used) ≡ is_new o used
unfolding is_fresh
is_fresh-padded o used =
    ap (λ u. contains print_options o && not (contains u o))
      (take-append used (replicate (print_options_capacity - length used) 0))

-- The loop computes `kept`, or `EINVAL` at a NUL; the store is always in bounds.
options_loop_lem :
    (c : Errno) (opts used : List ℕ)
    → HasRoom used
    → options_loop c opts (padded used) (length used) ≡ (
        if contains opts 0
        then invalid_argument c
        else ok (padded (kept used opts), length (kept used opts)))
unfolding options_loop kept
options_loop_lem c [] used room = refl
options_loop_lem c (o ∷ rest) used room = elim (Bool-cases (o == 0)) [
  | inl nul ↦ rw nul refl
  | inr byte ↦
      rw (byte, is_fresh-padded o used)
        (elim (Bool-cases (is_new o used)) [
          | inl new ↦
              (let in_bounds : ltb (length used) (length (padded used)) ≡ true =
                  lt→ltb _ _ (omega (arith, length-padded used room)) in
                let next : suc (length used) ≡ length (used ++ o ∷ []) =
                  omega (arith, length-append used (o ∷ [])) in
                rw (new, in_bounds, set-padded used o (omega arith), next)
                  (options_loop_lem c rest (used ++ o ∷ []) (snoc-HasRoom used o room new)))
          | inr old ↦ rw old (options_loop_lem c rest used room)
        ])
]

kept-HasRoom : (opts used : List ℕ) → HasRoom used → HasRoom (kept used opts)
unfolding kept
kept-HasRoom [] used room = room
kept-HasRoom (o ∷ rest) used room = elim (Bool-cases (is_new o used)) [
  | inl new ↦ rw new (kept-HasRoom rest (used ++ o ∷ []) (snoc-HasRoom used o room new))
  | inr old ↦ rw old (kept-HasRoom rest used room)
]

new_recognised : (o : ℕ) (used : List ℕ) → is_new o used ≡ true → contains print_options o ≡ true
new_recognised o used h = ground arith

-- The Boolean content of one round: whether `x` is kept, by whether `x` is used (`u`), is the
-- option at hand (`e`), stands in the rest (`r`) and is recognised (`q`).
round_new :
    (u e r q : Bool) → (e ≡ true → q ≡ true) → ((u || e) || (r && q)) ≡ (u || ((e || r) && q))
round_new true e r q h = refl
round_new false true r q h = ground (arith, h refl)
round_new false false r q h = refl

round_old :
    (u e r q : Bool) → (e ≡ true → (q && not u) ≡ false) → (u || (r && q)) ≡ (u || ((e || r) && q))
round_old true e r q h = refl
round_old false true r q h = ground (arith, h refl)
round_old false false r q h = refl

contains-kept :
    (opts used : List ℕ) (x : ℕ)
    → contains (kept used opts) x
      ≡ (contains used x || (contains opts x && contains print_options x))
unfolding kept
contains-kept [] used x = ground arith
contains-kept (o ∷ rest) used x = elim (Bool-cases (is_new o used)) [
  | inl new ↦
      rw (new, contains-kept rest (used ++ o ∷ []) x, contains-snoc used o x)
        (round_new (contains used x) (o == x) (contains rest x) (contains print_options x)
          (λ e. rw (← (==_iff o x).0 e) (new_recognised o used new)))
  | inr old ↦
      rw (old, contains-kept rest used x)
        (round_old (contains used x) (o == x) (contains rest x) (contains print_options x)
          (λ e. rw (← (==_iff o x).0 e) old))
]

-- No byte stands in the list twice.
abbrev pub IsDistinct : List ℕ → Type 0
IsDistinct [] = Unit
IsDistinct (x ∷ xs) = (contains xs x ≡ false) × IsDistinct xs

snoc-IsDistinct :
    (used : List ℕ) (o : ℕ)
    → IsDistinct used
    → contains used o ≡ false
    → IsDistinct (used ++ o ∷ [])
snoc-IsDistinct [] o d h = (refl, tt)
snoc-IsDistinct (x ∷ used) o d h =
    (ground (arith, contains-snoc used o x), snoc-IsDistinct used o d.1 (ground arith))

kept-IsDistinct : (opts used : List ℕ) → IsDistinct used → IsDistinct (kept used opts)
unfolding kept
kept-IsDistinct [] used d = d
kept-IsDistinct (o ∷ rest) used d = elim (Bool-cases (is_new o used)) [
  | inl new ↦
      rw new (kept-IsDistinct rest (used ++ o ∷ []) (snoc-IsDistinct used o d (ground arith)))
  | inr old ↦ rw old (kept-IsDistinct rest used d)
]

empty-HasRoom : HasRoom []
unfolding missing
empty-HasRoom = omega arith

terminated : (used : List ℕ) → HasRoom used → get_elem? (padded used) (length used) ≡ some 0
terminated used room =
    let left = print_options_capacity - suc (length used) in
    let more : print_options_capacity - length used ≡ suc left = omega arith in
    rw more (get_elem?-append used (replicate left 0) 0)

-- A NUL among the options is `EINVAL`. Otherwise the call succeeds with the bytes of `kept`, so no
-- store leaves the buffer: at most ten bytes are in use, the byte behind them is the terminator, no
-- byte is used twice, and a byte is used exactly when it is both requested and recognised.
pub normalize_options-kept :
    (c : Errno) (opts : List ℕ)
    → (normalize_options c opts ≡ (
        if contains opts 0
        then invalid_argument c
        else ok (padded (kept [] opts), length (kept [] opts))))
      × (length (kept [] opts) ≤ 10)
      × (get_elem? (padded (kept [] opts)) (length (kept [] opts)) ≡ some 0)
      × IsDistinct (kept [] opts)
      × ((x : ℕ) → contains (kept [] opts) x ≡ (contains opts x && contains print_options x))
unfolding normalize_options
normalize_options-kept c opts =
    let room = kept-HasRoom opts [] empty-HasRoom in
    (
      options_loop_lem c opts [] empty-HasRoom,
      omega arith,
      terminated (kept [] opts) room,
      kept-IsDistinct opts [] tt,
      contains-kept opts [],
    )
