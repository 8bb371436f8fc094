-- ===== src/Stats/Counters.antt =====
-- The epoch and the `stats.*` getters of jevmalloc/src/stats.rs.
use jevmalloc.Prelude.{ℕ, String}
use jevmalloc.System.{System, Action, usize_bytes, ◌>>=◌}
use jevmalloc.Ctl.Raw
use jevmalloc.Ctl.Raw.{get, xchg}
use jevmalloc.Ctl.Key.{key}

module _ {W : Type 0} (s : System W) where
  unfoldable pub epoch : Action W ℕ
  epoch = do k ← key s "epoch"; get s 8 k

  unfoldable pub refresh_epoch : Action W ℕ
  refresh_epoch = do k ← key s "epoch"; xchg s 8 k 0

  -- A getter of a `size_t`, and one of a `uint64_t`.
  unfoldable pub get_size : String → Action W ℕ
  get_size name = do k ← key s name; get s (usize_bytes s.arch) k

  unfoldable pub get_u64 : String → Action W ℕ
  get_u64 name = do k ← key s name; get s 8 k

  unfoldable pub allocated : Action W ℕ
  allocated = get_size "stats.allocated"

  unfoldable pub active : Action W ℕ
  active = get_size "stats.active"

  unfoldable pub metadata : Action W ℕ
  metadata = get_size "stats.metadata"

  unfoldable pub metadata_thp : Action W ℕ
  metadata_thp = get_size "stats.metadata_thp"

  unfoldable pub resident : Action W ℕ
  resident = get_size "stats.resident"

  unfoldable pub mapped : Action W ℕ
  mapped = get_size "stats.mapped"

  unfoldable pub retained : Action W ℕ
  retained = get_size "stats.retained"

  unfoldable pub zero_reallocs : Action W ℕ
  zero_reallocs = get_size "stats.zero_reallocs"

  unfoldable pub background_thread_num_threads : Action W ℕ
  background_thread_num_threads = get_size "stats.background_thread.num_threads"

  unfoldable pub background_thread_num_runs : Action W ℕ
  background_thread_num_runs = get_u64 "stats.background_thread.num_runs"

  unfoldable pub background_thread_run_interval : Action W ℕ
  background_thread_run_interval = get_u64 "stats.background_thread.run_interval"

  unfoldable pub stats_reset : Action W (Unit {0})
  stats_reset = do k ← key s "stats.mutexes.reset"; Raw.notify s k
