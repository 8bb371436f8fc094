-- ===== src/BuildScript/Prefix/Bundled.antt =====
-- The symbol prefix: `main` behind the choice of the prefix.
use jevmalloc.Prelude.{
  ◌≡◌, inl, inr, refl, Bool, false, Option, none, some, List, [], ◌∷◌, ◌++◌, Bool-cases, codes,
  same_bytes, drop,
}
use jevmalloc.BuildScript.Bytes.{Text, contains_text}
use jevmalloc.BuildScript.Targets.{any_in, make_cmd, gmake_hosts}
use jevmalloc.BuildScript.Script.{Platform, Command, run_command, run}
use jevmalloc.BuildScript.Configure.{arg_given, valued_option, watched_options}
use jevmalloc.BuildScript.Compiler.{find_compiler}
use jevmalloc.BuildScript.Main.{
  Setting, configure_command, make_command, build_library, build_bundled,
}
use jevmalloc.BuildScript.Prefix.{
  prefix_argument, has_text, HasPrefix, Yields, Keeps, bind-Yields, then-Keeps, test-Keeps,
  when-Keeps, execute-Keeps, run-Keeps,
}
use jevmalloc.BuildScript.Prefix.Arguments.{
  HasOption, IsReady, arg-IsReady, base_command-IsReady, prefix_option-IsReady,
  debug_option-IsReady, feature_options-IsReady, system_options-IsReady,
}
use jevmalloc.BuildScript.Prefix.Parts.{
  seq-Keeps, read_and_watch_env-Keeps, copy_sources-Keeps, link_library-Keeps,
}

HasOption-drop :
    (b : Bool) (args : List Text) → HasOption b args → has_text prefix_argument (drop 1 args) ≡ b
HasOption-drop b [] ready = absurd ready
HasOption-drop b (_ ∷ rest) ready = ready

IsReady-HasPrefix : (b : Bool) (cmd : Command) → IsReady b cmd → HasPrefix b (run_command cmd)
IsReady-HasPrefix b cmd ready = inr (HasOption-drop b cmd.args ready)

make_cmd-ne : (host : Text) → same_bytes (make_cmd host) (codes "sh") ≡ false
unfolding make_cmd
make_cmd-ne host = elim (Bool-cases (any_in host gmake_hosts)) [
  | inl e ↦ rw e refl
  | inr e ↦ elim (Bool-cases (contains_text host (codes "windows"))) [
    | inl w ↦ rw e (rw w refl)
    | inr w ↦ rw e (rw w refl)
  ]
]

arg_given-IsReady :
    (value : Option Text) (option : Text) (cmd : Command)
    → ((text : Text)
        → same_bytes (codes "--" ++ (option ++ (codes "=" ++ text))) prefix_argument ≡ false)
    → IsReady false cmd
    → IsReady false (arg_given value option cmd)
arg_given-IsReady none option cmd other ready = ready
arg_given-IsReady (some text) option cmd other ready = arg-IsReady false _ cmd (other text) ready

module _ (b : Bool) (p : Platform) where
  valued_option-Yields :
      (variable option : Text)
      → ((text : Text)
          → same_bytes (codes "--" ++ (option ++ (codes "=" ++ text))) prefix_argument ≡ false)
      → (cmd : Command) → IsReady false cmd
      → Yields b (IsReady false) (valued_option p variable option cmd)
  unfolding valued_option
  valued_option-Yields variable option other cmd ready =
      bind-Yields b (λ _. Unit) (IsReady false) _ _ (read_and_watch_env-Keeps b p variable)
        (λ value _ h a. (a, arg_given-IsReady value option cmd other ready))

  watched_options-Yields :
      (cmd : Command) → IsReady false cmd → Yields b (IsReady false) (watched_options p cmd)
  unfolding watched_options
  watched_options-Yields cmd ready =
      bind-Yields b (IsReady false) (IsReady false) _ _
        (valued_option-Yields _ _ (λ text. refl) cmd ready)
        (λ cmd1 ready1.
          bind-Yields b (IsReady false) (IsReady false) _ _
            (valued_option-Yields _ _ (λ text. refl) cmd1 ready1)
            (λ cmd2 ready2.
              bind-Yields b (IsReady false) (IsReady false) _ _
                (valued_option-Yields _ _ (λ text. refl) cmd2 ready2)
                (λ cmd3 ready3.
                  bind-Yields b (IsReady false) (IsReady false) _ _
                    (valued_option-Yields _ _ (λ text. refl) cmd3 ready3)
                    (λ cmd4 ready4. valued_option-Yields _ _ (λ text. refl) cmd4 ready4))))

  configure_command-Yields :
      (setting : Setting) (build_dir : Text) (compiler : Text × Text)
      → Yields b (IsReady b) (configure_command p setting b build_dir compiler)
  unfolding configure_command
  configure_command-Yields setting build_dir (compiler, cflags) =
      bind-Yields b (λ _. Unit) (IsReady b) _ _ (test-Keeps b (λ _. p.is_unicode _))
        (λ _ _.
          bind-Yields b (IsReady false) (IsReady b) _ _
            (watched_options-Yields _ (base_command-IsReady _ _ _ _ _ _))
            (λ cmd ready h a. (
              a,
              system_options-IsReady b _ _ _ _ (
                  feature_options-IsReady b p _ _
                    (debug_option-IsReady b p _ (prefix_option-IsReady b cmd ready))),
            )))

  make-Keeps :
      (setting : Setting) (build_dir : Text) (args : List Text)
      → Keeps b (run p (make_command p setting build_dir args))
  unfolding make_command
  make-Keeps setting build_dir args = run-Keeps b p _ (make_cmd-ne setting.host)

  build_library-Keeps :
      (setting : Setting) (build_dir : Text) (configure : Command)
      → IsReady b configure
      → Keeps b (build_library p setting build_dir configure)
  unfolding build_library
  build_library-Keeps setting build_dir configure ready =
      seq-Keeps b _ _
        (execute-Keeps b p configure _ (IsReady-HasPrefix b configure ready) (run-Keeps b p _ refl))
        (seq-Keeps b _ _ (make-Keeps setting build_dir _) (
          seq-Keeps b _ _
            (when-Keeps b _ _
              (seq-Keeps b _ _ (make-Keeps setting build_dir _) (make-Keeps setting build_dir _)))
            (make-Keeps setting build_dir _)))

  find_compiler-Keeps : Keeps b (find_compiler p)
  unfolding find_compiler
  find_compiler-Keeps = seq-Keeps b _ _ (test-Keeps b _) (λ h a. (a, tt))

  pub build_bundled-Keeps : (setting : Setting) → Keeps b (build_bundled p setting b)
  unfolding build_bundled
  build_bundled-Keeps setting = then-Keeps b _ _ find_compiler-Keeps (λ compiler.
      seq-Keeps b _ _ (copy_sources-Keeps b p _ _) (
        bind-Yields b (IsReady b) (λ _. Unit) _ _ (configure_command-Yields _ _ compiler)
          (λ configure ready.
            seq-Keeps b _ _ (build_library-Keeps setting _ configure ready)
              (link_library-Keeps b p setting _))))
