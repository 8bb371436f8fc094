-- ===== src/BuildScript/Configure.antt =====
-- The arguments of `configure`: `feature_flag` and the middle of `main`.
use jevmalloc.Prelude.{
  Bool, true, false, ◌||◌, Option, none, some, [], ◌∷◌, ◌++◌, if◌then◌else◌, codes,
}
use jevmalloc.BuildScript.Bytes.{Text, contains_text, replace_from, replace_byte}
use jevmalloc.BuildScript.Targets.{gnu_target}
use jevmalloc.BuildScript.Script.{Platform, Command, Script, pure, ◌>>=◌}
use jevmalloc.BuildScript.Variables.{env_var, is_some, read_and_watch_env}

abbrev pub arg : Command → Text → Command
arg cmd a = record cmd { args = cmd.args ++ (a ∷ []) }

abbrev pub arg_if : Bool → Text → Command → Command
arg_if true a cmd = arg cmd a
arg_if false a cmd = cmd

-- An option with its value, where there is one.
abbrev pub arg_given : Option Text → Text → Command → Command
arg_given none option cmd = cmd
arg_given (some value) option cmd = arg cmd (codes "--" ++ (option ++ (codes "=" ++ value)))

abbrev pub set_env : Command → Text → Text → Command
set_env cmd name value = record cmd { vars = cmd.vars ++ ((name, value) ∷ []) }

-- The program of the command, for `sh`.
unfoldable pub configure_path : Text → Text
configure_path path =
    replace_byte 92 b'/' (replace_from (codes "C:" ++ (92 ∷ [])) (codes "/c/") 0 path)

-- `Command::new("sh")` with its first arguments, for every target.
abbrev pub sh_command : Text → Text → Text → Text → Text → Command
sh_command build_dir configure compiler cflags version = record {
  program = codes "sh";
  args =
      configure_path configure
      ∷ (codes "--with-version=" ++ version)
      ∷ codes "--enable-option-checking=fatal"
      ∷ codes "--disable-cxx"
      ∷ codes "--enable-doc=no"
      ∷ codes "--enable-shared=no"
      ∷ [];
  dir = some build_dir;
  vars = (codes "CC", compiler) ∷ (codes "EXTRA_CFLAGS", cflags) ∷ [];
}

-- The command with the options for single targets.
unfoldable pub base_command : Text → Text → Text → Text → Text → Text → Command
base_command target build_dir configure compiler cflags version =
    arg_if (contains_text target (codes "openbsd")) (codes "--disable-dss") (
      arg_if (contains_text target (codes "ios")) (codes "--with-lg-page=14")
        (sh_command build_dir configure compiler cflags version))

unfoldable pub prefix_option : Bool → Command → Command
prefix_option use_prefix cmd =
    arg (arg_if use_prefix (codes "--with-jemalloc-prefix=_rjem_") cmd)
      (codes "--with-private-namespace=_rjem_")

unfoldable pub system_options : Text → Text → Text → Command → Command
system_options target host out_dir cmd =
    arg (arg (arg cmd (codes "--host=" ++ gnu_target target)) (codes "--build=" ++ gnu_target host))
      (codes "--prefix=" ++ out_dir)

module _ (p : Platform) where
  unfoldable pub has_feature : Text → Bool
  has_feature feature = is_some (env_var p (codes "CARGO_FEATURE_" ++ feature))

  unfoldable pub feature_flag : Text → Text → Command → Command
  feature_flag feature option cmd =
      if has_feature feature
      then arg cmd (codes "--enable-" ++ option)
      else arg cmd (codes "--disable-" ++ option)

  -- `if let Ok(value) = read_and_watch_env(variable) { cmd.arg(format!("--{option}={value}")) }`
  unfoldable pub valued_option : Text → Text → Command → Script Command
  valued_option variable option cmd = do
    value ← read_and_watch_env p variable
    pure (arg_given value option cmd)

  -- The options that environment variables give.
  unfoldable pub watched_options : Command → Script Command
  watched_options cmd = do
    cmd1 ← valued_option (codes "JEMALLOC_SYS_WITH_MALLOC_CONF") (codes "with-malloc-conf") cmd
    cmd2 ← valued_option (codes "JEMALLOC_SYS_WITH_LG_PAGE") (codes "with-lg-page") cmd1
    cmd3 ← valued_option (codes "JEMALLOC_SYS_WITH_LG_HUGEPAGE") (codes "with-lg-hugepage") cmd2
    cmd4 ← valued_option (codes "JEMALLOC_SYS_WITH_LG_QUANTUM") (codes "with-lg-quantum") cmd3
    valued_option (codes "JEMALLOC_SYS_WITH_LG_VADDR") (codes "with-lg-vaddr") cmd4

  unfoldable pub debug_option : Command → Command
  debug_option cmd =
      if p.debug_assertions || is_some (env_var p (codes "CARGO_CFG_DEBUG_ASSERTIONS"))
      then arg cmd (codes "--enable-debug")
      else set_env (arg cmd (codes "--disable-debug")) (codes "CPPFLAGS") (codes "-DNDEBUG")

  unfoldable pub frame_pointer_option : Text → Command → Command
  frame_pointer_option target cmd =
      if has_feature (codes "PROFILING_FRAMEPTR")
      then arg_if (contains_text target (codes "linux")) (codes "--enable-prof-frameptr") cmd
      else cmd

  unfoldable pub feature_options : Text → Command → Command
  feature_options target cmd = feature_flag (codes "STATS") (codes "stats") (
      frame_pointer_option target (
        feature_flag (codes "PROFILING") (codes "prof") (
          feature_flag (codes "PAGEID") (codes "pageid") (
            feature_flag (codes "INITIAL_EXEC_TLS") (codes "initial-exec-tls") (
              feature_flag (codes "FILL") (codes "fill") (
                feature_flag (codes "CHECK_USE_AFTER_FREE") (codes "uaf-detection") (
                  feature_flag (codes "CHECK_SIZE_MATCH") (codes "opt-size-checks") (
                    feature_flag (codes "CHECK_SAFETY") (codes "opt-safety-checks")
                      (feature_flag (codes "CACHE_OBLIVIOUS") (codes "cache-oblivious") cmd)))))))))
