-- ===== src/Arena/Settings/RoundTrip.antt =====
-- Setting and then reading a word that a control holds, through the key caches and the arena's own key.
use jevmalloc.Prelude.{ℕ, ◌≤◌, ◌≡◌, refl, ap, ◌∙◌, length, codes, arith}
use jevmalloc.System.{System, Process, ok, usize_bytes, bind_ok}
use jevmalloc.Ctl.Raw.{Key, split_count, mibs, get, xchg}
use jevmalloc.Ctl.Key.{key}
use jevmalloc.Ctl.Names.{length-mibs}
use jevmalloc.Ctl.Caching.{IsStable, IsCoherent, key_transparent, mibs-fixed}
use jevmalloc.Ctl.Queries.{meaning, get-seen, xchg-seen, caches-xchg}
use jevmalloc.Opt.Answers.{usize_bytes-pos}
use jevmalloc.Arena.Handle.{Arena, select}
use jevmalloc.Arena.Settings.{
  Setting, dirty, muzzy, grow_limit, default_dirty, default_muzzy, cache_max, name_of, key_for,
  read_setting, write_setting, IsCell, get_body, xchg_body, read_setting-eq-body,
  write_setting-eq-body,
}

deep : (t : Setting) → 2 ≤ split_count (codes (name_of t))
unfolding split_count
deep dirty = omega arith
deep muzzy = omega arith
deep grow_limit = omega arith
deep default_dirty = omega arith
deep default_muzzy = omega arith
deep cache_max = omega arith

module _ {W : Type 0} (s : System W) where
  get_body_lem :
      (t : Setting) (a : Arena) (k : Key) (q : Process W)
      → 2 ≤ length k
      → get_body s t a k q ≡ get s (usize_bytes s.arch) (key_for t a k) q
  unfolding select
  get_body_lem dirty a k q h = ground arith
  get_body_lem muzzy a k q h = ground arith
  get_body_lem grow_limit a k q h = ground arith
  get_body_lem default_dirty a k q h = refl
  get_body_lem default_muzzy a k q h = refl
  get_body_lem cache_max a k q h = refl

  xchg_body_lem :
      (t : Setting) (a : Arena) (v : ℕ) (k : Key) (q : Process W)
      → 2 ≤ length k
      → xchg_body s t a v k q ≡ xchg s (usize_bytes s.arch) (key_for t a k) v q
  unfolding select
  xchg_body_lem dirty a v k q h = ground arith
  xchg_body_lem muzzy a v k q h = ground arith
  xchg_body_lem grow_limit a v k q h = ground arith
  xchg_body_lem default_dirty a v k q h = refl
  xchg_body_lem default_muzzy a v k q h = refl
  xchg_body_lem cache_max a v k q h = refl

  module _ (st : IsStable s) (t : Setting) (a : Arena) (k : Key) where
    key_lem :
        (p : Process W)
        → IsCoherent s p
        → (mibs s (codes (name_of t)) p).0 ≡ ok k
        → (key s (name_of t) p).0 ≡ ok k
    key_lem p c e = (key_transparent s st (name_of t) p c).0 ∙ e

    long : (p : Process W) → (mibs s (codes (name_of t)) p).0 ≡ ok k → 2 ≤ length k
    long p e = omega (arith, (length-mibs s (codes (name_of t)) p e).0, deep t)

    write_lem :
        (v : ℕ) (p : Process W)
        → IsCoherent s p
        → (mibs s (codes (name_of t)) p).0 ≡ ok k
        → write_setting s t a v p
          ≡ xchg s (usize_bytes s.arch) (key_for t a k) v (key s (name_of t) p).1
    write_lem v p c e =
        write_setting-eq-body s t a v p
        ∙ bind_ok (key s (name_of t)) (xchg_body s t a v) p (key_lem p c e)
        ∙ xchg_body_lem t a v k (key s (name_of t) p).1 (long p e)

    read_lem :
        (p : Process W)
        → IsCoherent s p
        → (mibs s (codes (name_of t)) p).0 ≡ ok k
        → read_setting s t a p ≡ get s (usize_bytes s.arch) (key_for t a k) (key s (name_of t) p).1
    read_lem p c e =
        read_setting-eq-body s t a p
        ∙ bind_ok (key s (name_of t)) (get_body s t a) p (key_lem p c e)
        ∙ get_body_lem t a k (key s (name_of t) p).1 (long p e)

    module _ (word : W → ℕ) (IsAccepted : ℕ → Type 0) (fit : ℕ → ℕ)
        (cell : IsCell s (key_for t a k) word IsAccepted fit) where
      -- The exchange and the read of a cell, at any state.
      xchg_cell :
          (v : ℕ)
          → IsAccepted v
          → (q : Process W)
          → let r = xchg s (usize_bytes s.arch) (key_for t a k) v q in
            (r.0 ≡ ok (word q.world)) × (word r.1.world ≡ fit v) × (r.1.caches ≡ q.caches)
      xchg_cell v good q =
          let out = xchg-seen s (usize_bytes s.arch) v (key_for t a k) q (usize_bytes-pos s.arch) in
          let reply = cell.swaps v good q.world in
          (
            ap (λ r. r.0) out ∙ ap (meaning (usize_bytes s.arch)) reply ∙ ground arith,
            ap (λ r. word r.1) out ∙ cell.applies v good q.world,
            caches-xchg s (usize_bytes s.arch) v (key_for t a k) q,
          )

      get_cell :
          (q : Process W) → (get s (usize_bytes s.arch) (key_for t a k) q).0 ≡ ok (word q.world)
      get_cell q =
          ap (λ r. r.0) (get-seen s (usize_bytes s.arch) (key_for t a k) q (usize_bytes-pos s.arch))
          ∙ ap (λ r. meaning (usize_bytes s.arch) r.0) (cell.reads q.world)
          ∙ ground arith

      -- One write: the setter answers with the word from before, and leaves a coherent state with
      -- the new one.
      write_cell :
          (v : ℕ)
          → IsAccepted v
          → (p : Process W) → IsCoherent s p
          → (mibs s (codes (name_of t)) p).0 ≡ ok k
          → let next = (write_setting s t a v p).1 in
            ((write_setting s t a v p).0 ≡ ok (word p.world))
            × (word next.world ≡ fit v)
            × IsCoherent s next
      write_cell v good p c e =
          let (_, kept, coherent) = key_transparent s st (name_of t) p c in
          let written = write_lem v p c e in
          let (old, held, caches) = xchg_cell v good (key s (name_of t) p).1 in
          let caches' = ap (λ r. r.1.caches) written ∙ caches in
          (
            ap (λ r. r.0) written ∙ old ∙ ap (λ w. ok (word w)) kept,
            ap (λ r. word r.1.world) written ∙ held,
            λ n. rw caches' (coherent n),
          )

      read_cell :
          (p : Process W)
          → IsCoherent s p
          → (mibs s (codes (name_of t)) p).0 ≡ ok k
          → (read_setting s t a p).0 ≡ ok (word p.world)
      read_cell p c e =
          let (_, kept, _) = key_transparent s st (name_of t) p c in
          ap (λ r. r.0) (read_lem p c e)
          ∙ get_cell (key s (name_of t) p).1
          ∙ ap (λ w. ok (word w)) kept

      -- On a jemalloc whose control of a setting accepts the values `v` and `u` and holds what it
      -- makes of them, `fit v` and `fit u`, as documented, and from a coherent state: the setter of
      -- `v` returns the word from before, and the getter afterwards returns `fit v`; setting `u`
      -- next returns `fit v`, and the getter after that returns `fit u`. The key caches stay
      -- coherent. This holds of the decay times and the growth limit of one arena, of the default
      -- decay times, and of the cache limit of the thread.
      pub write-read_setting :
          (v u : ℕ)
          → IsAccepted v
          → IsAccepted u
          → (p : Process W) → IsCoherent s p
          → (mibs s (codes (name_of t)) p).0 ≡ ok k
          → let next = (write_setting s t a v p).1 in
            let last = (write_setting s t a u next).1 in
            ((write_setting s t a v p).0 ≡ ok (word p.world))
            × ((read_setting s t a next).0 ≡ ok (fit v))
            × ((write_setting s t a u next).0 ≡ ok (fit v))
            × ((read_setting s t a last).0 ≡ ok (fit u))
            × IsCoherent s next
            × IsCoherent s last
      write-read_setting v u good_v good_u p c e =
          let (old, held, c') = write_cell v good_v p c e in
          let next = (write_setting s t a v p).1 in
          let e' = mibs-fixed s st (codes (name_of t)) next p ∙ e in
          let (old', held', c'') = write_cell u good_u next c' e' in
          let last = (write_setting s t a u next).1 in
          let e'' = mibs-fixed s st (codes (name_of t)) last p ∙ e in
          (
            old,
            read_cell next c' e' ∙ ap ok held,
            old' ∙ ap ok held,
            read_cell last c'' e'' ∙ ap ok held',
            c',
            c'',
          )
