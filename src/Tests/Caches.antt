-- ===== src/Tests/Caches.antt =====
-- Theorems on thread caches at concrete inputs.
use jevmalloc.Prelude.{arith, inr, codes, same_bytes, ◌≡◌, refl, false, [], if◌then◌else◌}
use jevmalloc.Ctl.Error.{into_result, from_code}
use jevmalloc.Ctl.Raw.{is_rejected, split_count, name_buf, checked_key, mibs}
use jevmalloc.Ctl.Names.{c_string}
use jevmalloc.System.{err, System}
use jevmalloc.Tests.Toy.{World, toy, start, nonzero}
use jevmalloc.Thread.Cache.{ThreadCache, failed, create, try_destroy, drop}
use jevmalloc.Thread.Keys.{IsMissing, IsBlocked, create-IsBlocked}
use jevmalloc.Ctl.Caching.{IsStable, initial-IsCoherent}
use jevmalloc.Thread.Lifecycle.{cache_ownership}

abbrev disarmed : ThreadCache
disarmed = record { index = 3; owned = false }

cache_ownership_example :
    (try_destroy toy disarmed start
      ≡ (failed (record { error = record { code = 22 }; cache = disarmed }), start))
    × (drop toy disarmed start ≡ start)
cache_ownership_example = cache_ownership toy nonzero disarmed start

-- A system that has no control of the name `tcache.destroy`.
abbrev lacking : System World
lacking = record toy {
  mallctlnametomib = λ name cap w.
      if same_bytes (c_string name) (codes "tcache.destroy")
      then (record { status = 2; slots = λ i. 0; key_len = cap }, w)
      else toy.mallctlnametomib name cap w;
}

lacking-IsStable : IsStable lacking
lacking-IsStable = record {
  read_only = λ name cap w. ground arith;
  fixed = λ name cap v w. ground arith;
}

destroy_key : (mibs lacking (codes "tcache.destroy") start).0 ≡ err (record { code = 2 })
unfolding mibs is_rejected split_count checked_key into_result from_code c_string name_buf
destroy_key = refl

destroy_key-IsMissing : IsMissing lacking "tcache.destroy" start
destroy_key-IsMissing k = rw destroy_key (ground arith)

create-IsBlocked_example : IsBlocked (create lacking) start
create-IsBlocked_example =
    create-IsBlocked lacking lacking-IsStable start (initial-IsCoherent lacking [])
      (inr (inr destroy_key-IsMissing))
