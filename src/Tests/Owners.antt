-- ===== src/Tests/Owners.antt =====
-- The theorems on programs with many handles at programs that use every request that there is.
use jevmalloc.Prelude.{ℕ, length, ◌+◌, ◌≤◌, ◌≡◌, refl, true, List, [], ◌∷◌}
use jevmalloc.Ctl.Error.{into_result}
use jevmalloc.Ctl.Raw.{mibs, checked_key, is_rejected, split_count, name_buf}
use jevmalloc.Owners.Ledger.{count}
use jevmalloc.Owners.Programs.{
  Request, create, borrow, try_destroy, drop, into_index, from_owned_index, serve_all, owners,
}
use jevmalloc.Owners.Audit.{audited}
use jevmalloc.Arena.Audit.{Keys, IsTranslated, enter, arenas}
use jevmalloc.Arena.Owning.{start, programs_own_live_arenas}
use jevmalloc.System.{System}
use jevmalloc.Ctl.Caching.{IsStable}
use jevmalloc.Thread.Audit as CacheAudit
use jevmalloc.Thread.Audit.{caches}
use jevmalloc.Thread.Owning as CacheOwning
use jevmalloc.Thread.Owning.{programs_own_live_caches}
use jevmalloc.System.{usize_bits}
use jevmalloc.Thread.Cache
use jevmalloc.Arena.Index.{usize_try_from, uint_try_from}
use jevmalloc.Ctl.Raw
use jevmalloc.Ctl.Raw.{get}
use jevmalloc.Ctl.Key.{key, translate, publish, store, load, push_all, new}
use jevmalloc.Owners.Programs.{serve}
use jevmalloc.Ctl.Names.{c_string}
use jevmalloc.Tests.Toy.{World, toy, toy-IsStable, nonzero}

abbrev keys : Keys
keys = record { create_0 = 10; create_1 = 11; destroy_0 = 10; destroy_1 = 11; destroy_2 = 12 }

keys-IsTranslated : IsTranslated toy keys
unfolding mibs checked_key is_rejected split_count name_buf into_result c_string
keys-IsTranslated = record { create_key = λ p. refl; destroy_key = λ p. refl }

-- Two arenas are created and one is borrowed; one owner is turned into an index and back.
abbrev requests : List Request
requests =
    create ∷ create ∷ borrow 3 ∷ try_destroy 1 ∷ into_index 1 ∷ from_owned_index 0 ∷ drop 0 ∷ []

programs_own_live_arenas_example :
    let final =
      serve_all
        (arenas (audited toy (enter keys)))
        (start toy toy-IsStable nonzero keys keys-IsTranslated [])
        requests in
    (final.process.world.1.honoured ≡ true)
    × ((i : ℕ)
        → owners (arenas (audited toy (enter keys))) final.held i + count i final.released
          ≤ count i final.process.world.1.live)
programs_own_live_arenas_example =
    programs_own_live_arenas toy toy-IsStable nonzero keys keys-IsTranslated [] requests

-- Names of different lengths have different keys.
abbrev keyed : System World
keyed = record toy {
  mallctlnametomib = λ name cap w.
      let text = c_string name in
      (record { status = 0; slots = λ i. i + length text; key_len = split_count text }, w);
}

keyed-IsStable : IsStable keyed
keyed-IsStable = record { read_only = λ name cap w. refl; fixed = λ name cap v w. refl }

abbrev cache_keys : CacheAudit.Keys
cache_keys = record {
  create_0 = 13;
  create_1 = 14;
  destroy_0 = 14;
  destroy_1 = 15;
  flush = 12 ∷ 13 ∷ [];
}

cache_keys-IsTranslated : CacheAudit.IsTranslated keyed cache_keys
unfolding mibs checked_key is_rejected split_count name_buf into_result c_string
cache_keys-IsTranslated = record {
  create_key = λ p. refl;
  flush_key = λ p. refl;
  destroy_key = λ p. refl;
  distinct = refl;
}

abbrev cache_requests : List Request
cache_requests = create ∷ create ∷ try_destroy 1 ∷ drop 0 ∷ create ∷ []

programs_own_live_caches_example :
    let final =
      serve_all
        (caches (audited keyed (CacheAudit.enter cache_keys)))
        (CacheOwning.start keyed keyed-IsStable cache_keys cache_keys-IsTranslated [])
        cache_requests in
    (final.process.world.1.honoured ≡ true)
    × ((i : ℕ)
        → owners (caches (audited keyed (CacheAudit.enter cache_keys))) final.held i
            + count i final.released
          ≤ count i final.process.world.1.live)
programs_own_live_caches_example =
    programs_own_live_caches keyed keyed-IsStable cache_keys cache_keys-IsTranslated []
      cache_requests

-- Both caches of the program are destroyed before it creates the third.
caches_left :
    (let final =
        serve_all
          (caches (audited keyed (CacheAudit.enter cache_keys)))
          (CacheOwning.start keyed keyed-IsStable cache_keys cache_keys-IsTranslated [])
          cache_requests in
      final.process.world.1.live)
    ≡ 7 ∷ []
unfolding serve_all serve caches audited CacheAudit.enter Cache.create Cache.try_destroy
    Cache.finish_destroy Cache.destroy Cache.destroy_command Cache.disarm Cache.drop
    Cache.validated_index usize_try_from uint_try_from usize_bits Raw.set get into_result key
    translate publish store load push_all new mibs is_rejected split_count checked_key name_buf
    c_string
caches_left = refl
