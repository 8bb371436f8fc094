-- ===== src/Stats/Print.antt =====
-- `print` and `print_raw` of jevmalloc/src/stats.rs.
use jevmalloc.Prelude.{ℕ, List, take}
use jevmalloc.System.{System, Action, ok, lift, ◌>>=◌}
use jevmalloc.Stats.Options.{normalize_options}
use jevmalloc.Stats.Buffer.{new, write_all, finish}

module _ {W : Type 0} (s : System W) where
  -- `print_raw`: the fragments in the order in which the writer receives them.
  unfoldable pub print_raw : List ℕ → Action W (List (List ℕ))
  print_raw opts p =
      let (fragments, w) = s.malloc_stats_print opts p.world in
      (ok fragments, record p { world = w })

  unfoldable pub print : List ℕ → List ℕ → Action W (List ℕ)
  print opts buf = do
    (options, len) ← lift (normalize_options s.errno opts)
    fragments ← print_raw (take len options)
    lift (finish s (write_all s (new buf) fragments))
