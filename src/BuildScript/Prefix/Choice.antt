-- ===== src/BuildScript/Prefix/Choice.antt =====
-- The choice of the symbol prefix, and what Cargo hears of it.
use mathlib.Core.Path.{subst}
use mathlib.Core.Option.{some-injective}
use jevmalloc.Prelude.{
  ◌≡◌, arith, inl, inr, refl, Bool, true, false, ◌||◌, some, List, [], Bool-cases, sym, ◌∙◌, not,
  codes, ap, Option, none, if◌then◌else◌,
}
use jevmalloc.BuildScript.Bytes.{Text, contains_text}
use jevmalloc.BuildScript.Variables.{env_var, is_some}
use jevmalloc.BuildScript.Targets.{
  unsupported_targets, untested_targets, no_unprefixed_malloc_targets, any_in,
}
use jevmalloc.BuildScript.Script.{Event, Platform, ◌>>=◌}
use jevmalloc.BuildScript.Main.{
  Setting, read_setting, wants_prefix, use_prefix, announce, tell, go_on, main,
}
use jevmalloc.BuildScript.Prefix.{is_told}
use jevmalloc.BuildScript.Prefix.Agreement.{
  bind-cases, read_setting-IsSilent, announce-Agrees, AgreesWith, go_on-Keeps,
}

tell-returns : (b : Bool) (h : List Event) → (tell b h).0 ≡ some b
unfolding tell ◌>>=◌
tell-returns true h = refl
tell-returns false h = refl

-- Whether a variable is set to Unicode text.
abbrev pub is_set : (Text → Bool) → Option Text → Bool
is_set is_unicode none = false
is_set is_unicode (some value) = is_unicode value

is_some-read :
    (is_unicode : Text → Bool) (variable : Option Text)
    → is_some
        (elim variable [ none ↦ none | some value ↦ if is_unicode value then some value else none ])
      ≡ is_set is_unicode variable
is_some-read is_unicode none = refl
is_some-read is_unicode (some value) = ground arith

module _ (p : Platform) where
  -- The feature for symbols without a prefix is on if Cargo has set its variable, as Unicode text.
  abbrev pub has_feature : Bool
  has_feature =
      is_set p.is_unicode (p.env (codes "CARGO_FEATURE_UNPREFIXED_MALLOC_ON_SUPPORTED_PLATFORMS"))

  -- When the symbols are to have the prefix: without the feature always, and with it on the targets
  -- that cannot replace `malloc`.
  abbrev pub needs_prefix : Text → Bool
  needs_prefix target =
      not has_feature
      || contains_text target (codes "android")
      || contains_text target (codes "dragonfly")
      || contains_text target (codes "musl")
      || contains_text target (codes "darwin")
      || contains_text target (codes "openbsd")

  abbrev chosen_by : Text → Bool
  chosen_by target = wants_prefix p || any_in target no_unprefixed_malloc_targets

  wants_prefix_lem : wants_prefix p ≡ not has_feature
  unfolding wants_prefix env_var
  wants_prefix_lem = ap not (
      is_some-read p.is_unicode
        (p.env (codes "CARGO_FEATURE_UNPREFIXED_MALLOC_ON_SUPPORTED_PLATFORMS")))

  needs_prefix_lem : (target : Text) → needs_prefix target ≡ chosen_by target
  unfolding no_unprefixed_malloc_targets
  needs_prefix_lem target = rw wants_prefix_lem (ground arith)

  choose-returns :
      (target : Text) (h : List Event)
      → ((use_prefix p target >>= tell) h).0 ≡ some (chosen_by target)
  unfolding use_prefix ◌>>=◌
  choose-returns target h = elim (Bool-cases (wants_prefix p)) [
    | inl w ↦ rw w (tell-returns true h)
    | inr w ↦ elim (Bool-cases (any_in target no_unprefixed_malloc_targets)) [
      | inl e ↦ rw w (rw e (tell-returns true _))
      | inr e ↦ rw w (rw e (tell-returns false _))
    ]
  ]

  announce-returns :
      (target : Text)
      → any_in target unsupported_targets ≡ false
      → (announce p target []).0 ≡ some (chosen_by target)
  unfolding announce ◌>>=◌
  announce-returns target supported = elim (Bool-cases (any_in target untested_targets)) [
    | inl u ↦ rw supported (rw u (choose-returns target _))
    | inr u ↦ rw supported (rw u (choose-returns target []))
  ]

  -- What is told behind `announce` is what it has returned.
  go_on-told :
      (setting : Setting) (b : Bool)
      → (announce p setting.target []).0 ≡ some b
      → is_told (go_on p setting b (announce p setting.target []).1).1 ≡ b
  go_on-told setting b chosen =
      (go_on-Keeps p b setting _ (
        subst (λ r. AgreesWith p r (announce p setting.target []).1) chosen
          (announce-Agrees p setting.target))).0.0

  -- The parts of a target's name for which the script refuses to run.
  abbrev pub is_supported : Text → Bool
  is_supported target = not (
      contains_text target (codes "rumprun")
      || contains_text target (codes "bitrig")
      || contains_text target (codes "emscripten")
      || contains_text target (codes "fuchsia")
      || contains_text target (codes "redox")
      || contains_text target (codes "wasm32"))

  is_supported_lem :
      (target : Text) → is_supported target ≡ true → any_in target unsupported_targets ≡ false
  unfolding unsupported_targets
  is_supported_lem target h = ground arith

  told-chosen :
      (setting : Setting)
      → (read_setting p []).0 ≡ some setting
      → any_in setting.target unsupported_targets ≡ false
      → is_told (main p []).1 ≡ chosen_by setting.target
  unfolding main
  told-chosen setting found supported =
      let IsTold : List Event → Type 0 = λ h. is_told h ≡ chosen_by setting.target in
      bind-cases IsTold (read_setting p) _ [] (λ lost. absurd (grind (arith, lost, found)))
        (λ other same. rw (read_setting-IsSilent p []) (
          rw (some-injective _ _ (sym same ∙ found)) (
            bind-cases IsTold (announce p setting.target) (go_on p setting) []
              (λ lost. absurd (grind (arith, lost, announce-returns setting.target supported)))
              (λ b chosen.
                go_on-told setting b chosen
                ∙ some-injective _ _ (sym chosen ∙ announce-returns setting.target supported)))))

  -- Where the script reads its environment and the target is supported, Cargo is told of a prefix
  -- exactly if the feature for symbols without one is off or the target is one of the five kinds
  -- that do not allow them. This holds of every run, also of one that links the library named by
  -- `JEMALLOC_OVERRIDE`.
  pub main-told :
      (setting : Setting)
      → (read_setting p []).0 ≡ some setting
      → is_supported setting.target ≡ true
      → is_told (main p []).1 ≡ needs_prefix setting.target
  main-told setting found supported =
      told-chosen setting found (is_supported_lem setting.target supported)
      ∙ sym (needs_prefix_lem setting.target)
