-- ===== src/Thread/Audit.antt =====
-- The thread caches that jemalloc has created and not destroyed, by the calls of `tcache.create` and
-- `tcache.destroy` (jevmalloc/src/ctl/key.rs), and `ThreadCache` as an owning handle.
use jevmalloc.Prelude.{ℕ, ◌≡◌, false, Option, none, some, [], ◌∷◌, ◌&&◌, ◌==◌, if◌then◌else◌, codes}
use jevmalloc.System.{System, Process, Reply, ok}
use jevmalloc.Ctl.Raw.{Key, mibs}
use jevmalloc.Owners.Ledger.{Ledger, enter_create, enter_destroy}
use jevmalloc.Owners.Audit.{Entry}
use jevmalloc.Owners.Interface.{Operations}
use jevmalloc.Arena.Audit.{returned}
use jevmalloc.Thread.Cache.{
  ThreadCache, Attempt, destroyed, failed, panicked, create, try_destroy, drop,
}

-- The keys that the names are translated to: two components each, and the key of `tcache.flush`.
pub record Keys : Type 0 where
  pub create_0 : ℕ
  pub create_1 : ℕ
  pub destroy_0 : ℕ
  pub destroy_1 : ℕ
  pub flush : Key

pub record IsTranslated {W : Type 0} (s : System W) (k : Keys) : Type 0 where
  pub create_key :
      (p : Process W) → (mibs s (codes "tcache.create") p).0 ≡ ok (k.create_0 ∷ k.create_1 ∷ [])
  pub flush_key : (p : Process W) → (mibs s (codes "tcache.flush") p).0 ≡ ok k.flush
  pub destroy_key :
      (p : Process W) → (mibs s (codes "tcache.destroy") p).0 ≡ ok (k.destroy_0 ∷ k.destroy_1 ∷ [])
  pub distinct : (k.destroy_0 == k.create_0 && (k.destroy_1 == k.create_1)) ≡ false

-- The identifier to be destroyed is the value that is sent.
abbrev pub enter_sent : Option (ℕ × ℕ) → Reply → Ledger → Ledger
enter_sent none r l = l
enter_sent (some (i, size)) r l = enter_destroy r.status i l

unfoldable pub enter : Keys → Entry
enter k [] fresh r l = l
enter k (a ∷ []) fresh r l = l
enter k (a ∷ b ∷ []) fresh r l =
    if a == k.create_0 && (b == k.create_1)
    then enter_create r.status r.value l
    else if a == k.destroy_0 && (b == k.destroy_1)
    then enter_sent fresh r l
    else l
enter k (a ∷ b ∷ c ∷ rest) fresh r l = l

-- The handle that an attempt leaves to its caller, inside the error.
abbrev pub given_back : Attempt → Option ThreadCache
given_back destroyed = none
given_back (failed e) = some e.cache
given_back panicked = none

-- There is no operation that lends a cache or makes one from an identifier.
unfoldable pub caches : {W : Type 0} → System W → Operations (Process W) ThreadCache
caches s = record {
  index = λ c. c.index;
  owned = λ c. c.owned;
  create = λ p. let (r, p') = create s p in (returned r, p');
  borrow = λ i. none;
  try_destroy = λ c p. let (t, p') = try_destroy s c p in (given_back t, p');
  drop = drop s;
  into_index = none;
  from_owned_index = λ i. none;
}
