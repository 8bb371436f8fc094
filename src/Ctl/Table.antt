-- ===== src/Ctl/Table.antt =====
-- The table of built-in control names: every name can be translated, and no two are the same.
use text.Mathlib.Text.{◌==◌ as str_eq}
use text.Mathlib.TextEquality.{eq_iff}
use jevmalloc.Prelude.{
  ℕ, zero, suc, ◌≡◌, refl, ap, Bool, true, false, not, ◌&&◌, ◌||◌, some, String, List, [], ◌∷◌,
  ◌==◌, get_elem?, take, same_bytes, ◌⊎◌, inl, inr, Bool-cases, codes, arith,
}
use jevmalloc.Ctl.Raw.{is_rejected, split_count}
use jevmalloc.Ctl.Key.{key_names}

-- Whether the name has the placeholder of an arena: `arena.0.` and a rest.
abbrev pub is_template : List ℕ → Bool
is_template bytes = same_bytes (take 8 bytes) (codes "arena.0.")

is_usable : String → Bool
is_usable name =
    not (is_rejected (codes name))
    && (not (is_template (codes name)) || (split_count (codes name) == 3))

every : (String → Bool) → List String → Bool
every test [] = true
every test (x ∷ xs) = test x && every test xs

every_sound :
    (test : String → Bool) (xs : List String) (i : ℕ) {x : String}
    → every test xs ≡ true
    → get_elem? xs i ≡ some x
    → test x ≡ true
unfolding every
every_sound test [] i h e = ground arith
every_sound test (y ∷ xs) zero h e = ground arith
every_sound test (y ∷ xs) (suc i) h e = every_sound test xs i (ground arith) e

distinct : List String → Bool
unfolding every
distinct [] = true
distinct (x ∷ xs) = every (λ y. not (str_eq x y)) xs && distinct xs

usable_table : every is_usable key_names ≡ true
unfolding every is_usable key_names is_rejected split_count
usable_table = refl

distinct_table : distinct key_names ≡ true
unfolding distinct every key_names
distinct_table = refl

distinct_sound :
    (xs : List String) (i j : ℕ) {x : String}
    → distinct xs ≡ true
    → get_elem? xs i ≡ some x
    → get_elem? xs j ≡ some x
    → i ≡ j
unfolding distinct
distinct_sound [] i j h e f = ground arith
distinct_sound (y ∷ xs) zero zero h e f = refl
distinct_sound (y ∷ xs) zero (suc j) {x = x} h e f =
    let differs : not (str_eq y x) ≡ true =
      every_sound (λ z. not (str_eq y z)) xs j (ground arith) f in
    absurd (ground (arith, eq_iff y x))
distinct_sound (y ∷ xs) (suc i) zero {x = x} h e f =
    let differs : not (str_eq y x) ≡ true =
      every_sound (λ z. not (str_eq y z)) xs i (ground arith) e in
    absurd (ground (arith, eq_iff y x))
distinct_sound (y ∷ xs) (suc i) (suc j) h e f = ap suc (distinct_sound xs i j (ground arith) e f)

-- Every name of the table is accepted for translation; a name with the placeholder of an arena has
-- three segments, so that the index can be written at the second; and no name stands twice, so
-- that the static of an accessor is found by its name.
pub key_names-usable :
    (i j : ℕ) (name : String)
    → get_elem? key_names i ≡ some name
    → get_elem? key_names j ≡ some name
    → (is_rejected (codes name) ≡ false)
      × ((is_template (codes name) ≡ false) ⊎ (split_count (codes name) ≡ 3))
      × (i ≡ j)
unfolding is_usable
key_names-usable i j name e f =
    let usable = every_sound is_usable key_names i usable_table e in
    (
      ground arith,
      elim (Bool-cases (is_template (codes name))) [
        | inl template ↦ inr (ground arith)
        | inr plain ↦ inl plain
      ],
      distinct_sound key_names i j distinct_table e f,
    )
