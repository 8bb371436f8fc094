-- ===== src/Arena/Settings.antt =====
-- The settings that are held in one word, and what is documented of their controls.
pub mod RoundTrip
use jevmalloc.Prelude.{ℕ, ◌≡◌, refl, String, some, none, set}
use jevmalloc.System.{System, Process, Action, lift, usize_bytes, ◌>>=◌}
use jevmalloc.Ctl.Raw.{Key, get, xchg}
use jevmalloc.Ctl.Key.{key}
use jevmalloc.Ctl.Queries.{bind_assoc}
use jevmalloc.Arena.Handle.{Arena, select}
use jevmalloc.Arena.Controls
use jevmalloc.Arena.Controls.{
  get_word, xchg_word, selected_key, retain_grow_limit, set_retain_grow_limit,
}
use jevmalloc.Arenas
use jevmalloc.Thread.This.{tcache_max, set_tcache_max}

-- The settings of an arena, the defaults of new arenas, and the cache limit of the thread.
pub data Setting : Type 0 where
  dirty muzzy grow_limit default_dirty default_muzzy cache_max : Setting

abbrev pub name_of : Setting → String
name_of dirty = "arena.0.dirty_decay_ms"
name_of muzzy = "arena.0.muzzy_decay_ms"
name_of grow_limit = "arena.0.retain_grow_limit"
name_of default_dirty = "arenas.dirty_decay_ms"
name_of default_muzzy = "arenas.muzzy_decay_ms"
name_of cache_max = "thread.tcache.max"

-- The key of a setting: the index of the arena stands at the second place of an arena's own.
abbrev pub key_for : Setting → Arena → Key → Key
key_for dirty a k = set k 1 a.index
key_for muzzy a k = set k 1 a.index
key_for grow_limit a k = set k 1 a.index
key_for _ a k = k

module _ {W : Type 0} (s : System W) where
  abbrev pub read_setting : Setting → Arena → Action W ℕ
  read_setting dirty a = Controls.dirty_decay s a
  read_setting muzzy a = Controls.muzzy_decay s a
  read_setting grow_limit a = retain_grow_limit s a
  read_setting default_dirty a = Arenas.dirty_decay s
  read_setting default_muzzy a = Arenas.muzzy_decay s
  read_setting cache_max a = tcache_max s

  abbrev pub write_setting : Setting → Arena → ℕ → Action W ℕ
  write_setting dirty a v = Controls.set_dirty_decay s a v
  write_setting muzzy a v = Controls.set_muzzy_decay s a v
  write_setting grow_limit a v = set_retain_grow_limit s a v
  write_setting default_dirty a v = Arenas.set_dirty_decay s v
  write_setting default_muzzy a v = Arenas.set_muzzy_decay s v
  write_setting cache_max a v = set_tcache_max s v

  -- What is documented of a control of one word: it answers a read with the word, and an accepted
  -- new value with the word from before. It then holds what it makes of that value: `fit v` is `v`
  -- itself for a decay time, `v` rounded down to a class of pages for the growth limit, and `v`
  -- clamped and rounded up to a size class for the cache limit. Of other values it says nothing.
  pub record IsCell (k : Key) (word : W → ℕ) (IsAccepted : ℕ → Type 0) (fit : ℕ → ℕ) : Type 0 where
    pub reads :
        (w : W)
        → s.mallctlbymib k (some (none, usize_bytes s.arch)) none w
          ≡ (record { status = 0; value = word w; len = usize_bytes s.arch }, w)
    pub swaps :
        (v : ℕ)
        → IsAccepted v
        → (w : W)
        → (s.mallctlbymib k (some (none, usize_bytes s.arch)) (some (v, usize_bytes s.arch)) w).0
          ≡ record { status = 0; value = word w; len = usize_bytes s.arch }
    pub applies :
        (v : ℕ)
        → IsAccepted v
        → (w : W)
        → word
            (s.mallctlbymib k (some (none, usize_bytes s.arch)) (some (v, usize_bytes s.arch)) w).1
          ≡ fit v

  -- The bodies behind the lookup of a setting's name.
  abbrev pub get_body : Setting → Arena → Key → Action W ℕ
  get_body dirty a k = lift (select s a.index k) >>= get s (usize_bytes s.arch)
  get_body muzzy a k = lift (select s a.index k) >>= get s (usize_bytes s.arch)
  get_body grow_limit a k = lift (select s a.index k) >>= get s (usize_bytes s.arch)
  get_body _ a k = get s (usize_bytes s.arch) k

  abbrev pub xchg_body : Setting → Arena → ℕ → Key → Action W ℕ
  xchg_body dirty a v k = lift (select s a.index k) >>= λ k'. xchg s (usize_bytes s.arch) k' v
  xchg_body muzzy a v k = lift (select s a.index k) >>= λ k'. xchg s (usize_bytes s.arch) k' v
  xchg_body grow_limit a v k = lift (select s a.index k) >>= λ k'. xchg s (usize_bytes s.arch) k' v
  xchg_body _ a v k = xchg s (usize_bytes s.arch) k v

  pub read_setting-eq-body :
      (t : Setting) (a : Arena) (p : Process W)
      → read_setting t a p ≡ (key s (name_of t) >>= get_body t a) p
  unfolding Controls.dirty_decay Controls.muzzy_decay retain_grow_limit Arenas.dirty_decay
      Arenas.muzzy_decay tcache_max get_word selected_key
  read_setting-eq-body dirty a p =
      bind_assoc (key s "arena.0.dirty_decay_ms") (λ k. lift (select s a.index k))
        (get s (usize_bytes s.arch)) p
  read_setting-eq-body muzzy a p =
      bind_assoc (key s "arena.0.muzzy_decay_ms") (λ k. lift (select s a.index k))
        (get s (usize_bytes s.arch)) p
  read_setting-eq-body grow_limit a p =
      bind_assoc (key s "arena.0.retain_grow_limit") (λ k. lift (select s a.index k))
        (get s (usize_bytes s.arch)) p
  read_setting-eq-body default_dirty a p = refl
  read_setting-eq-body default_muzzy a p = refl
  read_setting-eq-body cache_max a p = refl

  pub write_setting-eq-body :
      (t : Setting) (a : Arena) (v : ℕ) (p : Process W)
      → write_setting t a v p ≡ (key s (name_of t) >>= xchg_body t a v) p
  unfolding Controls.set_dirty_decay Controls.set_muzzy_decay set_retain_grow_limit
      Arenas.set_dirty_decay Arenas.set_muzzy_decay set_tcache_max xchg_word selected_key
  write_setting-eq-body dirty a v p =
      bind_assoc (key s "arena.0.dirty_decay_ms") (λ k. lift (select s a.index k))
        (λ k. xchg s (usize_bytes s.arch) k v) p
  write_setting-eq-body muzzy a v p =
      bind_assoc (key s "arena.0.muzzy_decay_ms") (λ k. lift (select s a.index k))
        (λ k. xchg s (usize_bytes s.arch) k v) p
  write_setting-eq-body grow_limit a v p =
      bind_assoc (key s "arena.0.retain_grow_limit") (λ k. lift (select s a.index k))
        (λ k. xchg s (usize_bytes s.arch) k v) p
  write_setting-eq-body default_dirty a v p = refl
  write_setting-eq-body default_muzzy a v p = refl
  write_setting-eq-body cache_max a v p = refl
