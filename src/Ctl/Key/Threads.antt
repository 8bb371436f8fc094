-- ===== src/Ctl/Key/Threads.antt =====
-- `Cache::get` of jevmalloc/src/ctl/key/cache.rs under concurrent callers: one atomic step of one
-- thread at a time, in any order. The memory is sequentially consistent in this model.
use jevmalloc.Prelude.{
  ℕ, suc, List, [], ◌∷◌, ◌++◌, none, some, ltb, ◌==◌, if◌then◌else◌, length, set, get_elem?,
}
use jevmalloc.System.{Errno, Outcome, ok, err, panic, Cache}
use jevmalloc.Ctl.Error.{invalid_argument}
use jevmalloc.Ctl.Raw.{Key, key_segs}

-- Where a caller of `Cache::get` stands: before the load of the length, behind so many of the stores
-- of its translated key, behind so many of the reads for a loaded length, or returned.
pub data Phase : Type 0 where
  before_load : Phase
  storing : Key → ℕ → Phase
  reading : ℕ → Key → Phase
  finished : Outcome Key → Phase

-- What follows the translation.
unfoldable pub translated : Outcome Key → Phase
translated (ok k) = storing k 0
translated (err e) = finished (err e)
translated panic = finished panic

-- One atomic step of a caller, where `r` is what its translation of the name returns.
unfoldable pub step : Errno → Outcome Key → Cache → Phase → Cache × Phase
step c r cache before_load =
    if ltb 0 cache.len then (cache, reading cache.len []) else (cache, translated r)
step c r cache (storing k i) = elim (get_elem? k i) [
  | some segment ↦ (record cache { segments = set cache.segments i segment }, storing k (suc i))
  | none ↦ (record cache { len = length k }, finished (ok k))
]
step c r cache (reading len k) =
    if ltb (length k) len
    then elim (get_elem? cache.segments (length k)) [
      | some segment ↦
          (if ltb (length k) key_segs
            then (cache, reading len (k ++ segment ∷ []))
            else (cache, finished (invalid_argument c)))
      | none ↦ (cache, finished (ok k))
    ]
    else (cache, finished (ok k))
step c r cache (finished outcome) = (cache, finished outcome)

-- One static, and the threads that call its accessor.
pub record Callers : Type 0 where
  pub cache : Cache
  pub phases : ℕ → Phase

unfoldable pub advance : Errno → Outcome Key → Callers → ℕ → Callers
advance c r s thread =
    let (cache, phase) = step c r s.cache (s.phases thread) in
    record { cache = cache; phases = λ other. if other == thread then phase else s.phases other }

-- An interleaving is the list of the threads that take the steps.
unfoldable pub run : Errno → Outcome Key → Callers → List ℕ → Callers
run c r s [] = s
run c r s (thread ∷ rest) = run c r (advance c r s thread) rest
