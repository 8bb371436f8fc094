-- ===== src/BuildScript/Prefix/Arguments.antt =====
-- The arguments of `configure`: the option for the prefix is among them exactly if it was chosen.
use jevmalloc.Prelude.{
  ◌≡◌, refl, Bool, true, false, ◌||◌, List, [], ◌∷◌, ◌++◌, arith, ap, ◌∙◌, inl, inr, Bool-cases,
  codes, same_bytes,
}
use jevmalloc.BuildScript.Bytes.{Text, contains_text}
use jevmalloc.BuildScript.Targets.{gnu_target}
use jevmalloc.BuildScript.Script.{Platform, Command}
use jevmalloc.BuildScript.Variables.{env_var, is_some}
use jevmalloc.BuildScript.Configure.{
  arg, arg_if, sh_command, base_command, prefix_option, feature_flag, has_feature, debug_option,
  frame_pointer_option, feature_options, system_options,
}
use jevmalloc.BuildScript.Prefix.{has_text, prefix_argument}

-- `args` are the path of the script and options, the one for the prefix among them exactly if `b`.
abbrev pub HasOption : Bool → List Text → Type 0
HasOption b [] = ⊥
HasOption b (_ ∷ rest) = has_text prefix_argument rest ≡ b

abbrev pub IsReady : Bool → Command → Type 0
IsReady b cmd = HasOption b cmd.args

has_text-snoc :
    (t a : Text) (xs : List Text) → has_text t (xs ++ a ∷ []) ≡ (has_text t xs || same_bytes a t)
has_text-snoc t a [] = ground arith
has_text-snoc t a (x ∷ xs) = ground (arith, has_text-snoc t a xs)

HasOption-snoc :
    (b c : Bool) (a : Text) (args : List Text)
    → (b || same_bytes a prefix_argument) ≡ c
    → HasOption b args
    → HasOption c (args ++ a ∷ [])
HasOption-snoc b c a [] e ready = absurd ready
HasOption-snoc b c a (x ∷ rest) e ready =
    has_text-snoc prefix_argument a rest ∙ ap (λ t. t || same_bytes a prefix_argument) ready ∙ e

or_false : (b : Bool) → (b || false) ≡ b
or_false true = refl
or_false false = refl

pub prefix_option-IsReady :
    (b : Bool) (cmd : Command) → IsReady false cmd → IsReady b (prefix_option b cmd)
unfolding prefix_option
prefix_option-IsReady true cmd ready =
    HasOption-snoc true true _ (cmd.args ++ prefix_argument ∷ []) refl
      (HasOption-snoc false true prefix_argument cmd.args refl ready)
prefix_option-IsReady false cmd ready = HasOption-snoc false false _ cmd.args refl ready

module _ (b : Bool) where
  pub arg-IsReady :
      (a : Text) (cmd : Command)
      → same_bytes a prefix_argument ≡ false
      → IsReady b cmd
      → IsReady b (arg cmd a)
  arg-IsReady a cmd other ready =
      HasOption-snoc b b a cmd.args (ap (λ t. b || t) other ∙ or_false b) ready

  pub arg_if-IsReady :
      (c : Bool) (a : Text) (cmd : Command)
      → same_bytes a prefix_argument ≡ false
      → IsReady b cmd
      → IsReady b (arg_if c a cmd)
  arg_if-IsReady true a cmd other ready = arg-IsReady a cmd other ready
  arg_if-IsReady false a cmd other ready = ready

  pub system_options-IsReady :
      (target host out_dir : Text) (cmd : Command)
      → IsReady b cmd
      → IsReady b (system_options target host out_dir cmd)
  unfolding system_options
  system_options-IsReady target host out_dir cmd ready =
      let hosted = arg cmd (codes "--host=" ++ gnu_target target) in
      let built = arg hosted (codes "--build=" ++ gnu_target host) in
      arg-IsReady _ built refl (arg-IsReady _ hosted refl (arg-IsReady _ cmd refl ready))

  module _ (p : Platform) where
    feature_flag-IsReady :
        (feature option : Text) (cmd : Command)
        → same_bytes (codes "--enable-" ++ option) prefix_argument ≡ false
        → same_bytes (codes "--disable-" ++ option) prefix_argument ≡ false
        → IsReady b cmd
        → IsReady b (feature_flag p feature option cmd)
    unfolding feature_flag
    feature_flag-IsReady feature option cmd on off ready =
        elim (Bool-cases (has_feature p feature)) [
          | inl e ↦ rw e (arg-IsReady _ cmd on ready)
          | inr e ↦ rw e (arg-IsReady _ cmd off ready)
        ]

    frame_pointer_option-IsReady :
        (target : Text) (cmd : Command)
        → IsReady b cmd
        → IsReady b (frame_pointer_option p target cmd)
    unfolding frame_pointer_option
    frame_pointer_option-IsReady target cmd ready =
        elim (Bool-cases (has_feature p (codes "PROFILING_FRAMEPTR"))) [
          | inl e ↦ rw e (arg_if-IsReady _ _ cmd refl ready)
          | inr e ↦ rw e ready
        ]

    pub debug_option-IsReady : (cmd : Command) → IsReady b cmd → IsReady b (debug_option p cmd)
    unfolding debug_option
    debug_option-IsReady cmd ready =
        elim (Bool-cases
          (p.debug_assertions || is_some (env_var p (codes "CARGO_CFG_DEBUG_ASSERTIONS")))) [
            | inl e ↦ rw e (arg-IsReady _ cmd refl ready)
            | inr e ↦ rw e (arg-IsReady (codes "--disable-debug") cmd refl ready)
          ]

    pub feature_options-IsReady :
        (target : Text) (cmd : Command) → IsReady b cmd → IsReady b (feature_options p target cmd)
    unfolding feature_options
    feature_options-IsReady target cmd ready = feature_flag-IsReady _ _ _ refl refl (
        frame_pointer_option-IsReady target _ (
          feature_flag-IsReady _ _ _ refl refl (
            feature_flag-IsReady _ _ _ refl refl (
              feature_flag-IsReady _ _ _ refl refl (
                feature_flag-IsReady _ _ _ refl refl (
                  feature_flag-IsReady _ _ _ refl refl (
                    feature_flag-IsReady _ _ _ refl refl (
                      feature_flag-IsReady _ _ _ refl refl
                        (feature_flag-IsReady _ _ cmd refl refl ready)))))))))

pub base_command-IsReady :
    (target build_dir configure compiler cflags version : Text)
    → IsReady false (base_command target build_dir configure compiler cflags version)
unfolding base_command
base_command-IsReady target build_dir configure compiler cflags version =
    let sh = sh_command build_dir configure compiler cflags version in
    let paged = arg_if (contains_text target (codes "ios")) (codes "--with-lg-page=14") sh in
    arg_if-IsReady false (contains_text target (codes "openbsd")) (codes "--disable-dss") paged refl
      (arg_if-IsReady false (contains_text target (codes "ios")) (codes "--with-lg-page=14") sh refl
        refl)
