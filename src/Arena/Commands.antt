-- ===== src/Arena/Commands.antt =====
-- Commands on one arena: they reach that arena's MIB, and they never panic.
use mathlib.Core.Path.{ap₂}
use jevmalloc.Prelude.{ℕ, ◌≤◌, ◌≡◌, ◌≢◌, refl, sym, ◌∙◌, String, none, length, set, codes, arith}
use jevmalloc.System.{
  System, Process, Outcome, ok, err, panic, Action, ◌>>=◌, bind_ok, bind_err, bind_panic,
}
use jevmalloc.Ctl.Error.{into_result, from_code}
use jevmalloc.Ctl.Raw
use jevmalloc.Ctl.Raw.{Key, mibs, split_count}
use jevmalloc.Ctl.Key.{key}
use jevmalloc.Ctl.Names.{length-mibs, mibs-ne-panic}
use jevmalloc.Ctl.Caching.{IsStable, IsCoherent, key_transparent}
use jevmalloc.Arena.Handle.{Arena, select, notify}

module _ {W : Type 0} (s : System W) where
  -- The body that all commands without a value share.
  abbrev pub command : String → Arena → Action W (Unit {0})
  command name a = key s name >>= notify s a

  raw_notify-ne-panic : (k : Key) (p : Process W) → (Raw.notify s k p).0 ≢ panic
  unfolding Raw.notify into_result from_code
  raw_notify-ne-panic k p = ground arith

  select_lem : (i : ℕ) (k : Key) → 2 ≤ length k → select s i k ≡ ok (set k 1 i)
  unfolding select
  select_lem i k h = ground arith

  notify_lem :
      (a : Arena) (k : Key) (p : Process W)
      → 2 ≤ length k
      → notify s a k p ≡ Raw.notify s (set k 1 a.index) p
  unfolding notify
  notify_lem a k p h = rw (select_lem a.index k h)

  caches-raw_notify : (k : Key) (p : Process W) → (Raw.notify s k p).1.caches ≡ p.caches
  unfolding Raw.notify into_result from_code
  caches-raw_notify k p = ground arith

  -- What a command of the arena `a` is to do, by how the translation of its name ends: one call of
  -- the key with this arena's index as its second component, and no value.
  abbrev pub call_of : Arena → W → Outcome Key → Outcome (Unit {0}) × W
  call_of a w (ok k) =
      let (reply, w') = s.mallctlbymib (set k 1 a.index) none none w in
      (into_result reply.status, w')
  call_of a w (err e) = (err e, w)
  call_of a w panic = (panic, w)

  -- What a client sees of a run: its outcome and jemalloc's state.
  abbrev pub visible : Outcome (Unit {0}) × Process W → Outcome (Unit {0}) × W
  visible (r, p) = (r, p.world)

  module _ (st : IsStable s) (nz : s.errno.einval ≢ 0) where
    key-ne-panic : (name : String) (p : Process W) → IsCoherent s p → (key s name p).0 ≢ panic
    key-ne-panic name p h =
        rw ((key_transparent s st name p h).0) (mibs-ne-panic s nz (codes name) p)

    length-key :
        (name : String) (p : Process W) {k : Key}
        → IsCoherent s p
        → (key s name p).0 ≡ ok k
        → length k ≡ split_count (codes name)
    length-key name p h e =
        (length-mibs s (codes name) p (sym ((key_transparent s st name p h).0) ∙ e)).0

    -- What a command does after its key has been looked up.
    after_key :
        (name : String) (a : Arena) (p : Process W)
        → 2 ≤ split_count (codes name)
        → IsCoherent s p
        → (r : Outcome Key) → (key s name p).0 ≡ r
        → (command name a p).0 ≢ panic
    after_key name a p deep h (ok k) e =
        let long = length-key name p h e in
        rw (bind_ok (key s name) (notify s a) p e) (
          rw (notify_lem a k (key s name p).1 (omega arith))
            (raw_notify-ne-panic (set k 1 a.index) (key s name p).1))
    after_key name a p deep h (err x) e = rw (bind_err (key s name) (notify s a) p e) (ground arith)
    after_key name a p deep h panic e = absurd (key-ne-panic name p h e)

    pub command-ne-panic :
        (name : String) (a : Arena) (p : Process W)
        → 2 ≤ split_count (codes name)
        → IsCoherent s p
        → (command name a p).0 ≢ panic
    command-ne-panic name a p deep h = after_key name a p deep h (key s name p).0 refl

    caches_after_key :
        (name : String) (a : Arena) (p : Process W)
        → 2 ≤ split_count (codes name)
        → IsCoherent s p
        → (r : Outcome Key) → (key s name p).0 ≡ r
        → (command name a p).1.caches ≡ (key s name p).1.caches
    caches_after_key name a p deep h (ok k) e =
        let long = length-key name p h e in
        rw (bind_ok (key s name) (notify s a) p e) (
          rw (notify_lem a k (key s name p).1 (omega arith))
            (caches-raw_notify (set k 1 a.index) (key s name p).1))
    caches_after_key name a p deep h (err x) e = rw (bind_err (key s name) (notify s a) p e) refl
    caches_after_key name a p deep h panic e = absurd (key-ne-panic name p h e)

    -- A command leaves the caches as its key lookup does.
    pub command-caches :
        (name : String) (a : Arena) (p : Process W)
        → 2 ≤ split_count (codes name)
        → IsCoherent s p
        → (command name a p).1.caches ≡ (key s name p).1.caches
    command-caches name a p deep h = caches_after_key name a p deep h (key s name p).0 refl

    raw_notify_lem :
        (k : Key) (p : Process W)
        → visible (Raw.notify s k p)
          ≡ (let (reply, w') = s.mallctlbymib k none none p.world in (into_result reply.status, w'))
    unfolding Raw.notify into_result from_code
    raw_notify_lem k p = ground arith

    call_after_key :
        (name : String) (a : Arena) (p : Process W)
        → 2 ≤ split_count (codes name)
        → IsCoherent s p
        → (r : Outcome Key) → (key s name p).0 ≡ r
        → visible (command name a p) ≡ call_of a (key s name p).1.world r
    call_after_key name a p deep h (ok k) e =
        let long = length-key name p h e in
        rw (bind_ok (key s name) (notify s a) p e) (
          rw (notify_lem a k (key s name p).1 (omega arith))
            (raw_notify_lem (set k 1 a.index) (key s name p).1))
    call_after_key name a p deep h (err x) e = rw (bind_err (key s name) (notify s a) p e) refl
    call_after_key name a p deep h panic e = rw (bind_panic (key s name) (notify s a) p e) refl

    pub command-eq-call :
        (name : String) (a : Arena) (p : Process W)
        → 2 ≤ split_count (codes name)
        → IsCoherent s p
        → visible (command name a p) ≡ call_of a p.world (mibs s (codes name) p).0
    command-eq-call name a p deep h =
        let (same, kept, _) = key_transparent s st name p h in
        call_after_key name a p deep h (key s name p).0 refl ∙ ap₂ (call_of a) kept same
