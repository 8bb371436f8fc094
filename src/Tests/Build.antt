-- ===== src/Tests/Build.antt =====
-- A build for musl on Linux, without the feature for prefixed symbols.
use jevmalloc.Prelude.{
  ◌≡◌, refl, true, false, Option, none, some, List, [], ◌∷◌, if◌then◌else◌, codes, same_bytes,
}
use jevmalloc.BuildScript.Bytes.{Text}
use jevmalloc.BuildScript.Targets.{
  unsupported_targets, untested_targets, no_unprefixed_malloc_targets,
}
use jevmalloc.BuildScript.Script.{no_entries, file, directory, execute, run, Platform, ◌>>=◌}
use jevmalloc.BuildScript.Variables.{
  expect_env, env_var, read_and_watch_env_impl, prefixed_name, read_and_watch_env,
  read_and_watch_env_os,
}
use jevmalloc.BuildScript.Configure.{watched_options, valued_option}
use jevmalloc.BuildScript.Compiler.{find_compiler, target_cpu, tune_cpu}
use jevmalloc.BuildScript.Main.{
  Setting, read_setting, main, go_on, announce, use_prefix, tell, build_bundled, copy_entries,
  copy_recursively, copy_sources, configure_command, build_library, link_library, wants_prefix,
}
use jevmalloc.BuildScript.Prefix.{is_told}
use jevmalloc.BuildScript.Prefix.Agreement.{IsConsistent, main-IsConsistent}
use jevmalloc.BuildScript.Prefix.Choice.{needs_prefix, main-told}

abbrev lookup : Text → List (Text × Text) → Option Text
lookup name [] = none
lookup name ((key, value) ∷ rest) =
    let later = lookup name rest in if same_bytes key name then some value else later

abbrev variables : List (Text × Text)
variables =
    (codes "TARGET", codes "x86_64-unknown-linux-musl")
    ∷ (codes "HOST", codes "x86_64-unknown-linux-gnu")
    ∷ (codes "NUM_JOBS", codes "8")
    ∷ (codes "OUT_DIR", codes "/out")
    ∷ (codes "CARGO_PKG_VERSION", codes "0.6.0+5.3.0")
    ∷ (codes "CARGO_FEATURE_UNPREFIXED_MALLOC_ON_SUPPORTED_PLATFORMS", codes "1")
    ∷ []

abbrev musl : Platform
musl = record {
  env = λ name. lookup name variables;
  is_unicode = λ _. true;
  current_dir = some (codes "/crate");
  debug_assertions = false;
  rust_flags = [];
  compiler = λ march mtune. (codes "cc", codes "-O3" ∷ []);
  sources = directory (codes "src") (file (codes "jemalloc.c") no_entries) no_entries;
  exists = λ _ _. true;
  starts = λ _ _. true;
  succeeds = λ _ _. true;
}

abbrev musl_setting : Setting
musl_setting = record {
  target = codes "x86_64-unknown-linux-musl";
  host = codes "x86_64-unknown-linux-gnu";
  num_jobs = codes "8";
  out_dir = codes "/out";
  version = codes "5.3.0";
}

main-IsConsistent_example : IsConsistent (main musl []).1
main-IsConsistent_example = main-IsConsistent musl

read_musl : (read_setting musl []).0 ≡ some musl_setting
unfolding read_setting expect_env env_var ◌>>=◌
read_musl = refl

main-told_example : is_told (main musl []).1 ≡ needs_prefix musl (codes "x86_64-unknown-linux-musl")
main-told_example = main-told musl musl_setting read_musl refl

main-ends_example : (main musl []).0 ≡ some tt
unfolding main go_on announce use_prefix tell read_setting expect_env env_var ◌>>=◌
    unsupported_targets untested_targets no_unprefixed_malloc_targets read_and_watch_env_impl
    prefixed_name read_and_watch_env read_and_watch_env_os build_bundled find_compiler copy_entries
    copy_recursively copy_sources configure_command watched_options valued_option build_library
    execute run link_library wants_prefix target_cpu tune_cpu
main-ends_example = refl
