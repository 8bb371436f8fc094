-- ===== src/Thread/Keys.antt =====
-- The order of `ThreadCache::create`: no cache is made that could not be flushed or destroyed.
use jevmalloc.Prelude.{◌≡◌, ◌≢◌, true, ◌⊎◌, inl, inr, sym, ◌∙◌, String, refl, codes, arith}
use jevmalloc.System.{
  Outcome, ok, err, panic, System, Process, Action, lift, pure, ◌>>=◌, bind_ok, bind_err,
  bind_panic,
}
use jevmalloc.Ctl.Raw.{Key, mibs, get}
use jevmalloc.Ctl.Key.{key}
use jevmalloc.Ctl.Caching.{IsStable, IsCoherent, key_transparent, mibs-fixed}
use jevmalloc.Arena.Index.{uint_bytes, usize_try_from}
use jevmalloc.Thread.Cache.{ThreadCache, validated_index, create}

-- The linked jemalloc has no control of this name.
abbrev pub IsMissing : {W : Type 0} → System W → String → Process W → Type 0
IsMissing s name p = (k : Key) → (mibs s (codes name) p).0 ≢ ok k

-- An action does not return a value, and leaves jemalloc alone.
abbrev pub IsBlocked : {W A : Type 0} → Action W A → Process W → Type 0
IsBlocked {A = A} m p = ((m p).1.world ≡ p.world) × ((a : A) → (m p).0 ≢ ok a)

module _ {W : Type 0} (s : System W) (st : IsStable s) where
  here-IsBlocked :
      {A : Type 0} (name : String) (f : Key → Action W A) (p : Process W)
      → IsCoherent s p
      → IsMissing s name p
      → (r : Outcome Key) → (key s name p).0 ≡ r
      → IsBlocked (key s name >>= f) p
  here-IsBlocked name f p h missing (ok k) e =
      absurd (missing k (sym ((key_transparent s st name p h).0) ∙ e))
  here-IsBlocked name f p h missing (err x) e =
      rw (bind_err (key s name) f p e) ((key_transparent s st name p h).1, λ a. ground arith)
  here-IsBlocked name f p h missing panic e =
      rw (bind_panic (key s name) f p e) ((key_transparent s st name p h).1, λ a. ground arith)

  later-IsBlocked :
      {A : Type 0} (name : String) (f : Key → Action W A) (p : Process W)
      → IsCoherent s p
      → ((k : Key) (q : Process W) → IsCoherent s q → IsBlocked (f k) q)
      → (r : Outcome Key) → (key s name p).0 ≡ r
      → IsBlocked (key s name >>= f) p
  later-IsBlocked name f p h rest (ok k) e =
      let (_, kept, coherent) = key_transparent s st name p h in
      let (kept', none_returned) = rest k (key s name p).1 coherent in
      rw (bind_ok (key s name) f p e) (kept' ∙ kept, none_returned)
  later-IsBlocked name f p h rest (err x) e =
      rw (bind_err (key s name) f p e) ((key_transparent s st name p h).1, λ a. ground arith)
  later-IsBlocked name f p h rest panic e =
      rw (bind_panic (key s name) f p e) ((key_transparent s st name p h).1, λ a. ground arith)

  still-IsMissing : (name : String) (p q : Process W) → IsMissing s name p → IsMissing s name q
  still-IsMissing name p q missing k e = missing k (mibs-fixed s st (codes name) p q ∙ e)

  -- `create` behind its three lookups.
  abbrev behind_lookups : Key → Action W ThreadCache
  behind_lookups create_key = do
    value ← get s uint_bytes create_key
    index ← lift (usize_try_from s value)
    _ ← lift (validated_index s index)
    pure (record { index = index; owned = true })

  -- From a coherent state in which any one of `tcache.create`, `tcache.flush` and `tcache.destroy`
  -- has no key, `create` returns no handle and leaves jemalloc's state alone: no cache is made.
  pub create-IsBlocked :
      (p : Process W)
      → IsCoherent s p
      → IsMissing s "tcache.create" p
        ⊎ (IsMissing s "tcache.flush" p ⊎ IsMissing s "tcache.destroy" p)
      → IsBlocked (create s) p
  unfolding create
  create-IsBlocked p h (inl missing) =
      here-IsBlocked "tcache.create"
        (λ k. key s "tcache.flush" >>= λ _. key s "tcache.destroy" >>= λ _. behind_lookups k) p h
        missing _ refl
  create-IsBlocked p h (inr (inl missing)) =
      later-IsBlocked "tcache.create"
        (λ k. key s "tcache.flush" >>= λ _. key s "tcache.destroy" >>= λ _. behind_lookups k) p h
        (λ k q h'.
          here-IsBlocked "tcache.flush" (λ _. key s "tcache.destroy" >>= λ _. behind_lookups k) q h'
            (still-IsMissing "tcache.flush" p q missing) _ refl)
        _ refl
  create-IsBlocked p h (inr (inr missing)) =
      later-IsBlocked "tcache.create"
        (λ k. key s "tcache.flush" >>= λ _. key s "tcache.destroy" >>= λ _. behind_lookups k) p h
        (λ k q h'.
          later-IsBlocked "tcache.flush" (λ _. key s "tcache.destroy" >>= λ _. behind_lookups k) q
            h'
            (λ k' q' h''.
              here-IsBlocked "tcache.destroy" (λ _. behind_lookups k) q' h''
                (still-IsMissing "tcache.destroy" p q' missing) _ refl)
            _ refl)
        _ refl
