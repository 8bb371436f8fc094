-- ===== src/Thread/Blindness/Caches.antt =====
-- The end of the handle of a thread cache is blind to the key caches.
use jevmalloc.Prelude.{ℕ, String, ◌≡◌, Bool, true, false, arith}
use jevmalloc.System.{System, Process, Outcome, ok, err, panic, Action, lift, ◌>>=◌}
use jevmalloc.Ctl.Raw
use jevmalloc.Ctl.Raw.{get}
use jevmalloc.Ctl.Key.{key}
use jevmalloc.Ctl.Caching.{IsStable}
use jevmalloc.Ctl.Error.{invalid_argument}
use jevmalloc.Ctl.Blindness.{
  IsBlind, lift-IsBlind, ended-IsBlind, same-IsBlind, bind-IsBlind, on_key-IsBlind,
  on_outcome-IsBlind, set-IsBlind, get-IsBlind,
}
use jevmalloc.Arena.Index.{uint_bytes, usize_try_from}
use jevmalloc.Thread.Cache.{
  ThreadCache, Attempt, destroyed, failed, panicked, create, flush, validated_index,
  destroy_command, destroy, drop, finish_destroy, try_destroy, disarm,
}

-- What the command leaves of an attempt to destroy a cache.
abbrev pub attempt : ThreadCache → Outcome (Unit {0}) → Outcome Attempt
attempt c (ok _) = ok destroyed
attempt c (err e) = ok (failed (record { error = e; cache = c }))
attempt c panic = ok panicked

module _ {W : Type 0} (s : System W) where
  -- `try_destroy` and `drop` as actions.
  abbrev pub attempted : ThreadCache → Action W Attempt
  attempted c p = let (t, p') = try_destroy s c p in (ok t, p')

  abbrev pub dropped : ThreadCache → Action W (Unit {0})
  dropped c p = (ok tt, drop s c p)

  pub owned_attempt_lem :
      (i : ℕ) (p : Process W)
      → (let c : ThreadCache = record { index = i; owned = true } in
          (attempt c (destroy_command s c p).0, (destroy_command s c p).1) ≡ attempted c p)
  unfolding try_destroy finish_destroy destroy disarm drop
  owned_attempt_lem i p = ground arith

  pub refused_attempt_lem :
      (i : ℕ) (p : Process W)
      → (let c : ThreadCache = record { index = i; owned = false } in
          (attempt c (invalid_argument s.errno), p) ≡ attempted c p)
  unfolding try_destroy finish_destroy destroy invalid_argument disarm drop
  refused_attempt_lem i p = ground arith

  module _ (st : IsStable s) where
    pub create-IsBlind : IsBlind s (create s)
    unfolding create
    create-IsBlind = on_key-IsBlind s st "tcache.create" _ λ k.
        on_key-IsBlind s st "tcache.flush" _ λ _. on_key-IsBlind s st "tcache.destroy" _ λ _.
          bind-IsBlind s (get s uint_bytes k) _ (get-IsBlind s uint_bytes k) λ value.
            on_outcome-IsBlind s (usize_try_from s value) _ λ index.
              on_outcome-IsBlind s (validated_index s index) _
                λ _. lift-IsBlind s (ok (record { index = index; owned = true }))

    -- A command that is sent the identifier of the cache.
    command-IsBlind :
        (name : String) (c : ThreadCache)
        → IsBlind s (do
          k ← key s name
          index ← lift (validated_index s c.index)
          Raw.set s uint_bytes k index)
    command-IsBlind name c = on_key-IsBlind s st name _ λ k.
        on_outcome-IsBlind s (validated_index s c.index) _ λ index. set-IsBlind s uint_bytes k index

    pub flush-IsBlind : (c : ThreadCache) → IsBlind s (flush s c)
    unfolding flush
    flush-IsBlind c = command-IsBlind "tcache.flush" c

    destroy_command-IsBlind : (c : ThreadCache) → IsBlind s (destroy_command s c)
    unfolding destroy_command
    destroy_command-IsBlind c = command-IsBlind "tcache.destroy" c

    attempt_by_owner :
        (i : ℕ) (owned : Bool) → IsBlind s (attempted (record { index = i; owned = owned }))
    attempt_by_owner i true =
        let c : ThreadCache = record { index = i; owned = true } in
        same-IsBlind s (λ p. (attempt c (destroy_command s c p).0, (destroy_command s c p).1))
          (attempted c) (owned_attempt_lem i)
          (ended-IsBlind s (destroy_command s c) (attempt c) (destroy_command-IsBlind c))
    attempt_by_owner i false =
        let c : ThreadCache = record { index = i; owned = false } in
        same-IsBlind s (lift (attempt c (invalid_argument s.errno))) (attempted c)
          (refused_attempt_lem i) (lift-IsBlind s (attempt c (invalid_argument s.errno)))

    pub attempted-IsBlind : (c : ThreadCache) → IsBlind s (attempted c)
    attempted-IsBlind c = attempt_by_owner c.index c.owned

    drop_by_owner :
        (i : ℕ) (owned : Bool) → IsBlind s (dropped (record { index = i; owned = owned }))
    unfolding drop destroy
    drop_by_owner i true =
        let c : ThreadCache = record { index = i; owned = true } in
        ended-IsBlind s (destroy_command s c) (λ _. ok tt) (destroy_command-IsBlind c)
    drop_by_owner i false = lift-IsBlind s (ok tt)

    pub dropped-IsBlind : (c : ThreadCache) → IsBlind s (dropped c)
    dropped-IsBlind c = drop_by_owner c.index c.owned
