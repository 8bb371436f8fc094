-- ===== src/Arena/Audit.antt =====
-- The arenas that jemalloc has created and not destroyed, by the calls of `arenas.create` and
-- `arena.<i>.destroy` (jevmalloc/src/ctl/key.rs), and `Arena` as an owning handle.
use jevmalloc.Prelude.{ℕ, ◌≡◌, Option, none, some, [], ◌∷◌, ◌&&◌, ◌==◌, if◌then◌else◌, codes}
use jevmalloc.System.{System, Process, Outcome, ok, err, panic}
use jevmalloc.Ctl.Raw.{mibs}
use jevmalloc.Owners.Ledger.{enter_create, enter_destroy}
use jevmalloc.Owners.Audit.{Entry}
use jevmalloc.Owners.Interface.{Operations}
use jevmalloc.Arena.Handle.{
  Arena, Attempt, destroyed, failed, panicked, create, from_index, from_owned_index, try_destroy,
  drop, into_index,
}

-- The keys that the two names are translated to.
pub record Keys : Type 0 where
  pub create_0 : ℕ
  pub create_1 : ℕ
  pub destroy_0 : ℕ
  pub destroy_1 : ℕ
  pub destroy_2 : ℕ

pub record IsTranslated {W : Type 0} (s : System W) (k : Keys) : Type 0 where
  pub create_key :
      (p : Process W) → (mibs s (codes "arenas.create") p).0 ≡ ok (k.create_0 ∷ k.create_1 ∷ [])
  pub destroy_key :
      (p : Process W)
      → (mibs s (codes "arena.0.destroy") p).0 ≡ ok (k.destroy_0 ∷ k.destroy_1 ∷ k.destroy_2 ∷ [])

-- A call of the first key creates the arena of its reply, a call of the second one with another
-- number in its place asks for the arena of that number to be destroyed.
unfoldable pub enter : Keys → Entry
enter k [] fresh r l = l
enter k (a ∷ []) fresh r l = l
enter k (a ∷ b ∷ []) fresh r l =
    if a == k.create_0 && b == k.create_1 then enter_create r.status r.value l else l
enter k (a ∷ i ∷ b ∷ []) fresh r l =
    if a == k.destroy_0 && b == k.destroy_2 then enter_destroy r.status i l else l
enter k (a ∷ b ∷ c ∷ d ∷ rest) fresh r l = l

abbrev pub returned : {A : Type 0} → Outcome A → Option A
returned (ok a) = some a
returned (err e) = none
returned panic = none

-- The handle that an attempt leaves to its caller, inside the error.
abbrev pub given_back : Attempt → Option Arena
given_back destroyed = none
given_back (failed e) = some e.arena
given_back panicked = none

unfoldable pub arenas : {W : Type 0} → System W → Operations (Process W) Arena
arenas s = record {
  index = λ a. a.index;
  owned = λ a. a.owned;
  create = λ p. let (r, p') = create s p in (returned r, p');
  borrow = λ i. returned (from_index s i);
  try_destroy = λ a p. let (t, p') = try_destroy s a p in (given_back t, p');
  drop = drop s;
  into_index = some (into_index s);
  from_owned_index = λ i. returned (from_owned_index s i);
}
