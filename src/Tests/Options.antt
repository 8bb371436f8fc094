-- ===== src/Tests/Options.antt =====
-- Theorems on option getters, switches, names and cached keys at concrete inputs.
use jevmalloc.Prelude.{ℕ, ◌≡◌, ◌⊎◌, refl, true, false, codes, [], ◌∷◌}
use jevmalloc.System.{ok}
use jevmalloc.Tests.Toy.{toy, start, toy-IsStable, start-IsCoherent}
use jevmalloc.Ctl.Error.{into_result}
use jevmalloc.Ctl.Raw.{mibs, checked_key, is_rejected, split_count, name_buf}
use jevmalloc.Ctl.Names.{c_string}
use jevmalloc.Ctl.Key.{key, key_names, translate, publish, new}
use jevmalloc.Ctl.Table.{is_template, key_names-usable}
use jevmalloc.Ctl.Once.{key_again}
use jevmalloc.Config
use jevmalloc.Profiling.{prof_gdump, prof_enable, background_thread_enable}
use jevmalloc.Profiling.Switches.{IsSwitch, switches-IsSwitch}
use jevmalloc.Thread.This
use jevmalloc.Thread.This.{cache_enable}

switches-IsSwitch_example :
    IsSwitch toy "prof.gdump" true start (prof_gdump toy true)
    × IsSwitch toy "prof.active" true start (prof_enable toy true)
    × IsSwitch toy "background_thread" true start (background_thread_enable toy true)
    × IsSwitch toy "thread.tcache.enabled" true start (cache_enable toy true)
    × IsSwitch toy "thread.prof.active" true start (This.prof_enable toy true)
switches-IsSwitch_example = switches-IsSwitch toy toy-IsStable true start start-IsCoherent

key_names-usable_example :
    (is_rejected (codes "arena.0.purge") ≡ false)
    × ((is_template (codes "arena.0.purge") ≡ false) ⊎ (split_count (codes "arena.0.purge") ≡ 3))
    × (◌≡◌ {A = ℕ} 57 57)
unfolding key_names
key_names-usable_example = key_names-usable 57 57 "arena.0.purge" refl refl

epoch_key : (key toy "epoch" start).0 ≡ ok (10 ∷ [])
unfolding key translate publish mibs is_rejected split_count checked_key into_result c_string
    name_buf new
epoch_key = refl

key_again_example :
    key toy "epoch" (key toy "epoch" start).1 ≡ (ok (10 ∷ []), (key toy "epoch" start).1)
key_again_example = key_again toy "epoch" start start-IsCoherent epoch_key
