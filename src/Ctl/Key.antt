-- ===== src/Ctl/Key.antt =====
-- jevmalloc/src/ctl/key.rs and key/cache.rs: built-in keys, translated once and cached.
mod Names
pub mod Threads
pub mod Relaxed
unfoldable pub use Names.{key_names}
use text.Mathlib.Text.{◌==◌ as str_eq}
use jevmalloc.Prelude.{
  ℕ, zero, suc, String, List, [], ◌∷◌, ◌++◌, ltb, if◌then◌else◌, length, replicate, take, codes,
}
use jevmalloc.System.{
  Errno, Outcome, ok, err, panic, Cache, System, Process, Action, pure, lift, ◌>>=◌, ◌>>◌,
}
use jevmalloc.Ctl.Error.{invalid_argument}
use jevmalloc.Ctl.Raw.{Key, key_segs, mibs}

-- `Cache::new`
unfoldable pub new : Cache
new = record { len = 0; segments = replicate key_segs 0 }

-- The zipped stores of `Cache::get`, up to the shorter of the slots and the key.
unfoldable pub store : List ℕ → Key → List ℕ
store [] key = []
store (slot ∷ slots) [] = slot ∷ slots
store (slot ∷ slots) (segment ∷ key) = segment ∷ store slots key

-- The loop of `Cache::load`, which pushes within the capacity of a key.
unfoldable pub push_all : Errno → Key → List ℕ → Outcome Key
push_all c key [] = ok key
push_all c key (segment ∷ rest) =
    let pushed = push_all c (key ++ segment ∷ []) rest in
    if ltb (length key) key_segs then pushed else invalid_argument c

unfoldable pub load : Errno → Cache → ℕ → Outcome Key
load c cache len = push_all c [] (take len cache.segments)

-- The write of one static.
abbrev pub set_cache : (String → Cache) → String → Cache → String → Cache
set_cache caches name cache other = if str_eq name other then cache else caches other

module _ {W : Type 0} (s : System W) where
  -- The stores of `Cache::get`: every segment, then the length.
  unfoldable pub publish : String → Key → Action W (Unit {0})
  publish name key p =
      let cache : Cache = record {
        len = length key;
        segments = store (p.caches name).segments key;
      } in
      (ok tt, record p { caches = set_cache p.caches name cache })

  -- The rest of `Cache::get`, when nothing is published yet.
  unfoldable pub translate : String → Action W Key
  translate name = do k ← mibs s (codes name); publish name k; pure k

  -- `Cache::get`, at the static of one name; `key::accessor()`.
  unfoldable pub key : String → Action W Key
  key name p =
      let cache = p.caches name in
      if ltb 0 cache.len then (load s.errno cache cache.len, p) else translate name p
