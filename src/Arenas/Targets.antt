-- ===== src/Arenas/Targets.antt =====
-- The commands for all arenas reach the sentinel index, and the modes exclude each other.
use jevmalloc.Prelude.{ℕ, ◌≤◌, ◌≡◌, ◌≢◌, ◌↔◌, ◌⊎◌, ◌∙◌, ap, arith, true, false, length, set, codes}
use jevmalloc.System.{System, Process, Outcome, ok, err, panic, Action, lift, usize_bytes, ◌>>=◌}
use jevmalloc.Ctl.Raw.{Key, mibs, get, xchg, split_count}
use jevmalloc.Ctl.Names.{length-mibs}
use jevmalloc.Ctl.Caching.{IsStable, IsCoherent}
use jevmalloc.Ctl.Queries.{seen, read_at, exchange_at, get-seen, xchg-seen, after_key-seen}
use jevmalloc.Opt.Answers.{usize_bytes-pos}
use jevmalloc.Arena.Dss.{Dss, as_ptr, from_ptr, read_dss}
use jevmalloc.Arena.Handle
use jevmalloc.Arena.Handle.{Arena}
use jevmalloc.Arena.Controls
use jevmalloc.Arena.Targets.{Reaches, commands-Reaches}
use jevmalloc.Arenas
use jevmalloc.Arenas.{
  PercpuMode, select, percpu, phycpu, mode_is, percpu_mode, is_affine, is_percpu, is_phycpu,
}

-- The index that stands for all arenas in jemalloc, `MALLCTL_ARENAS_ALL`.
abbrev pub sentinel : Arena
sentinel = record { index = 4096; owned = false }

module _ {W : Type 0} (s : System W) where
  -- What a client sees of a read or an exchange whose answer points to a precedence.
  abbrev pub precedence_at : Outcome ℕ × W → Outcome Dss × W
  precedence_at (ok ptr, w) = (from_ptr s ptr w, w)
  precedence_at (err e, w) = (err e, w)
  precedence_at (panic, w) = (panic, w)

  precedence-seen :
      (m : Action W ℕ) (q : Process W) → seen ((m >>= read_dss s) q) ≡ precedence_at (seen (m q))
  precedence-seen m q = ground arith

  select_lem : (k : Key) → 2 ≤ length k → select s k ≡ ok (set k 1 4096)
  unfolding select
  select_lem k h = ground arith

  dss-seen :
      (m : Key → Action W ℕ) (k : Key) (q : Process W)
      → 2 ≤ length k
      → seen ((lift (select s k) >>= λ k'. m k' >>= read_dss s) q)
        ≡ precedence_at (seen (m (set k 1 4096) q))
  dss-seen m k q h = rw (select_lem k h) (precedence-seen (m (set k 1 4096)) q)

module _ {W : Type 0} (s : System W) (st : IsStable s) (nz : s.errno.einval ≢ 0) where
  long : (k : Key) (p : Process W) → (mibs s (codes "arena.0.dss") p).0 ≡ ok k → 2 ≤ length k
  unfolding split_count
  long k p e = omega (arith, (length-mibs s (codes "arena.0.dss") p e).0)

  dss_reaches :
      (k : Key) (p : Process W)
      → IsCoherent s p
      → (mibs s (codes "arena.0.dss") p).0 ≡ ok k
      → seen (Arenas.dss s p)
        ≡ precedence_at s (read_at s (usize_bytes s.arch) (set k 1 4096) p.world)
  unfolding Arenas.dss
  dss_reaches k p h e =
      after_key-seen s st "arena.0.dss" k
        (λ key. lift (select s key) >>= λ k'. get s (usize_bytes s.arch) k' >>= read_dss s) p
        (λ w. precedence_at s (read_at s (usize_bytes s.arch) (set k 1 4096) w)) h e
        λ q hq.
          dss-seen s (get s (usize_bytes s.arch)) k q (long k p e)
          ∙ ap (precedence_at s)
              (get-seen s (usize_bytes s.arch) (set k 1 4096) q (usize_bytes-pos s.arch))

  set_dss_reaches :
      (k : Key) (v : Dss) (p : Process W)
      → IsCoherent s p
      → (mibs s (codes "arena.0.dss") p).0 ≡ ok k
      → seen (Arenas.set_dss s v p)
        ≡ precedence_at s (exchange_at s (usize_bytes s.arch) (as_ptr s v) (set k 1 4096) p.world)
  unfolding Arenas.set_dss
  set_dss_reaches k v p h e =
      after_key-seen s st "arena.0.dss" k
        (λ key.
          lift (select s key) >>= λ k'. xchg s (usize_bytes s.arch) k' (as_ptr s v) >>= read_dss s)
        p (λ w. precedence_at s (exchange_at s (usize_bytes s.arch) (as_ptr s v) (set k 1 4096) w))
        h e
        λ q hq.
          dss-seen s (λ k'. xchg s (usize_bytes s.arch) k' (as_ptr s v)) k q (long k p e)
          ∙ ap (precedence_at s) (
              xchg-seen s (usize_bytes s.arch) (as_ptr s v) (set k 1 4096) q
                (usize_bytes-pos s.arch))

  -- Where names are translated as documented and `EINVAL` is not zero: from a coherent state the
  -- commands for all arenas end exactly as one call with the translated key does in which 4096
  -- replaces the placeholder 0, and neither they nor `trim` panic; and with the key of the
  -- precedence, `dss` and `set_dss` are seen as one read and one exchange of that key with 4096 in
  -- it, whose answer is read as a precedence.
  pub all-Reaches :
      (k : Key) (v : Dss) (p : Process W)
      → IsCoherent s p
      → (mibs s (codes "arena.0.dss") p).0 ≡ ok k
      → Reaches s "arena.0.decay" sentinel p (Arenas.decay s)
        × Reaches s "arena.0.purge" sentinel p (Arenas.purge s)
        × ((Arenas.trim s p).0 ≢ panic)
        × (seen (Arenas.dss s p)
            ≡ precedence_at s (read_at s (usize_bytes s.arch) (set k 1 4096) p.world))
        × (seen (Arenas.set_dss s v p)
            ≡ precedence_at s
                (exchange_at s (usize_bytes s.arch) (as_ptr s v) (set k 1 4096) p.world))
  unfolding Arenas.decay Arenas.purge Arenas.trim Arenas.notify Arenas.select Controls.decay
      Controls.purge Controls.trim Handle.notify Handle.select
  all-Reaches k v p h e =
      let (decayed, purged, _, _, trimmed) = commands-Reaches s st nz sentinel p h in
      (decayed, purged, trimmed, dss_reaches k p h e, set_dss_reaches k v p h e)

module _ {W : Type 0} (s : System W) (p : Process W) where
  -- Where the query of the mode does not panic, `is_affine` holds exactly when `is_percpu` or
  -- `is_phycpu` does, those two never both hold, and `is_affine` does not panic.
  is_affine_cases :
      (percpu_mode s p).0 ≢ panic
      → (((is_affine s p).0 ≡ ok true)
          ↔ (((is_percpu s p).0 ≡ ok true) ⊎ ((is_phycpu s p).0 ≡ ok true)))
        × (¬ (((is_percpu s p).0 ≡ ok true) × ((is_phycpu s p).0 ≡ ok true)))
        × ((is_affine s p).0 ≢ panic)
  unfolding is_affine is_percpu is_phycpu
  is_affine_cases h = ground arith
