-- ===== src/BuildScript/Main.antt =====
-- `main` of the build script, in its order.
use jevmalloc.Prelude.{Bool, true, not, ◌&&◌, none, some, List, [], ◌∷◌, ◌++◌, if◌then◌else◌, codes}
use jevmalloc.BuildScript.Bytes.{Text, contains_text, split_once, join_path}
use jevmalloc.BuildScript.Targets.{
  unsupported_targets, untested_targets, no_unprefixed_malloc_targets, any_in, make_cmd,
}
use jevmalloc.BuildScript.Script.{
  Command, Platform, Script, pure, expect, assert, println, when, must, remove_tree, create_dir,
  Listing, no_entries, unreadable, file, directory, abort, copy_file, compile, execute, run, ◌>>=◌,
  ◌>>◌,
}
use jevmalloc.BuildScript.Variables.{env_var, is_some, expect_env, read_and_watch_env_os}
use jevmalloc.BuildScript.Configure.{
  base_command, watched_options, prefix_option, debug_option, feature_options, system_options,
}
use jevmalloc.BuildScript.Compiler.{find_compiler}
use jevmalloc.BuildScript.Override.{link_override}

-- What Cargo hears of the symbol prefix.
unfoldable pub tell : Bool → Script Bool
tell prefixed = do
  println (codes "cargo::rustc-check-cfg=cfg(prefixed)")
  when prefixed (println (codes "cargo:rustc-cfg=prefixed"))
  pure prefixed

-- The paths and names that the first part of `main` reads.
pub record Setting : Type 0 where
  pub target : Text
  pub host : Text
  pub num_jobs : Text
  pub out_dir : Text
  pub version : Text

-- `if !dst.exists() { create_dir_all(dst) }`
abbrev pub make_dir : Platform → Text → Script (Unit {0})
make_dir p dst h = when (not (p.exists h dst)) (must p (create_dir dst)) h

module _ (p : Platform) where
  unfoldable pub read_setting : Script Setting
  read_setting = do
    target ← expect_env p (codes "TARGET")
    host ← expect_env p (codes "HOST")
    num_jobs ← expect_env p (codes "NUM_JOBS")
    out_dir ← expect (p.env (codes "OUT_DIR"))
    _ ← expect p.current_dir
    full_version ← expect_env p (codes "CARGO_PKG_VERSION")
    parts ← expect (split_once b'+' full_version)
    pure (record {
      target = target;
      host = host;
      num_jobs = num_jobs;
      out_dir = out_dir;
      version = parts.1;
    })

  -- `use_prefix`, before and after the override by the target.
  unfoldable pub wants_prefix : Bool
  wants_prefix =
      not (is_some (env_var p (codes "CARGO_FEATURE_UNPREFIXED_MALLOC_ON_SUPPORTED_PLATFORMS")))

  unfoldable pub use_prefix : Text → Script Bool
  use_prefix target =
      if not wants_prefix && any_in target no_unprefixed_malloc_targets
      then (do
        println (
            codes "cargo:warning="
            ++ (34
                ∷ (codes "Unprefixed `malloc` requested on unsupported platform `"
                    ++ (target ++ (codes "` => using prefixed `malloc`" ++ (34 ∷ []))))))
        pure true)
      else pure wants_prefix

  -- The entries of a directory, and those of the directories below it.
  unfoldable pub copy_entries : Text → Text → Listing → Script (Unit {0})
  copy_entries src dst no_entries = pure tt
  copy_entries src dst unreadable = abort
  copy_entries src dst (file name rest) = do
    must p (copy_file (join_path src name) (join_path dst name))
    copy_entries src dst rest
  copy_entries src dst (directory name below rest) = do
    make_dir p (join_path dst name)
    copy_entries (join_path src name) (join_path dst name) below
    copy_entries src dst rest

  unfoldable pub copy_recursively : Text → Text → Listing → Script (Unit {0})
  copy_recursively src dst listing = do make_dir p dst; copy_entries src dst listing

  -- The copy of the sources to the build directory.
  unfoldable pub copy_sources : Text → Text → Script (Unit {0})
  copy_sources out_dir build_dir = do
    λ h. assert (p.exists h out_dir) h
    println (codes "cargo:rerun-if-changed=configure")
    λ h. when (p.exists h build_dir) (must p (remove_tree build_dir)) h
    copy_recursively (codes "jemalloc") build_dir p.sources
    λ h. assert (p.exists h build_dir) h
    must p (
        copy_file (join_path (codes "configure") (codes "configure"))
          (join_path build_dir (codes "configure")))

  -- All arguments of `configure`.
  unfoldable pub configure_command : Setting → Bool → Text → Text × Text → Script Command
  configure_command setting prefixed build_dir (compiler, cflags) = do
    let configure = join_path build_dir (codes "configure")
    assert (p.is_unicode configure)
    cmd ←
        watched_options p
          (base_command setting.target build_dir configure compiler cflags setting.version)
    pure (
        system_options setting.target setting.host setting.out_dir
          (feature_options p setting.target (debug_option p (prefix_option prefixed cmd))))

  unfoldable pub make_command : Setting → Text → List Text → Command
  make_command setting build_dir args = record {
    program = make_cmd setting.host;
    args = args;
    dir = some build_dir;
    vars = [];
  }

  -- From `run_and_log` of `configure` to `make install`.
  unfoldable pub build_library : Setting → Text → Command → Script (Unit {0})
  build_library setting build_dir configure = do
    execute p configure (
        run p (record {
          program = codes "tail";
          args = codes "-n" ∷ codes "100" ∷ join_path build_dir (codes "config.log") ∷ [];
          dir = none;
          vars = [];
        }))
    run p (make_command setting build_dir (codes "-j" ∷ setting.num_jobs ∷ []))
    when (is_some (env_var p (codes "JEMALLOC_SYS_RUN_JEMALLOC_TESTS"))) (do
      run p (make_command setting build_dir (codes "-j" ∷ setting.num_jobs ∷ codes "tests" ∷ []))
      run p (make_command setting build_dir (codes "check" ∷ [])))
    run p (
        make_command setting build_dir (
          codes "install_lib_static"
          ∷ codes "install_include"
          ∷ codes "-j"
          ∷ setting.num_jobs
          ∷ []))

  -- The link directives, and the shim for Android.
  unfoldable pub link_library : Setting → Text → Script (Unit {0})
  link_library setting build_dir = do
    let target = setting.target
    println (codes "cargo:root=" ++ setting.out_dir)
    println (
        if contains_text target (codes "windows")
        then codes "cargo:rustc-link-lib=static=jemalloc"
        else codes "cargo:rustc-link-lib=static=jemalloc_pic")
    println (codes "cargo:rustc-link-search=native=" ++ (build_dir ++ codes "/lib"))
    when
        (not (contains_text target (codes "windows"))
          && not (contains_text target (codes "android")))
        (println (codes "cargo:rustc-link-arg=-pthread"))
    when (contains_text target (codes "riscv")) (println (codes "cargo:rustc-link-lib=atomic"))
    println (codes "cargo:rerun-if-changed=jemalloc")
    when (contains_text target (codes "android")) (do
      must p (compile (codes "src/pthread_atfork.c") (codes "pthread_atfork"))
      println (codes "cargo:rerun-if-changed=src/pthread_atfork.c"))

  -- `main` behind the early return.
  unfoldable pub build_bundled : Setting → Bool → Script (Unit {0})
  build_bundled setting prefixed = do
    compiler ← find_compiler p
    let build_dir = join_path setting.out_dir (codes "build")
    copy_sources setting.out_dir build_dir
    configure ← configure_command setting prefixed build_dir compiler
    build_library setting build_dir configure
    link_library setting build_dir

  -- `main` up to the early return: the targets and the symbol prefix.
  unfoldable pub announce : Text → Script Bool
  announce target = do
    assert (not (any_in target unsupported_targets))
    when (any_in target untested_targets) (
        println (
          codes "cargo:warning="
          ++ (34
              ∷ (codes "jemalloc support for `"
                  ++ (target ++ (codes "` is untested" ++ (34 ∷ [])))))))
    prefixed ← use_prefix target
    tell prefixed

  -- `main` behind the choice of the symbol prefix.
  unfoldable pub go_on : Setting → Bool → Script (Unit {0})
  go_on setting prefixed = do
    jemalloc ← read_and_watch_env_os p (codes "JEMALLOC_OVERRIDE")
    elim jemalloc [ some path ↦ link_override p path | none ↦ build_bundled setting prefixed ]

  unfoldable pub main : Script (Unit {0})
  main = do setting ← read_setting; prefixed ← announce setting.target; go_on setting prefixed
