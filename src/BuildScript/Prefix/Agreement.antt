-- ===== src/BuildScript/Prefix/Agreement.antt =====
-- The symbol prefix in a whole run of `main`.
use mathlib.Core.Path.{subst}
use jevmalloc.Prelude.{
  ◌≡◌, arith, inl, inr, refl, ap, ◌∙◌, ◌||◌, Bool, true, false, not, ◌&&◌, Option, none, some, List,
  [], ◌∷◌, ◌++◌, All, Bool-cases, codes, same_bytes,
}
use jevmalloc.BuildScript.Bytes.{Text}
use jevmalloc.BuildScript.Targets.{
  unsupported_targets, untested_targets, no_unprefixed_malloc_targets, any_in,
}
use jevmalloc.BuildScript.Script.{Event, Platform, Script, print, ◌>>=◌}
use jevmalloc.BuildScript.Variables.{expect_env}
use jevmalloc.BuildScript.Override.{link_override}
use jevmalloc.BuildScript.Main.{
  Setting, read_setting, wants_prefix, use_prefix, announce, build_bundled, main, tell, go_on,
}
use jevmalloc.BuildScript.Prefix.{
  HasPrefix, is_told, is_told-snoc, All-snoc, snoc-Agrees, prefixed_line, Agrees, Keeps, then-Keeps,
}
use jevmalloc.BuildScript.Prefix.Parts.{read_and_watch_env_os-Keeps, link_override-Keeps}
use jevmalloc.BuildScript.Prefix.Bundled.{build_bundled-Keeps}

-- What has happened behind two parts of the script, by whether the first one panics.
resume-cases :
    {A B : Type 0} (P : List Event → Type 0) (f : A → Script B) (r : Option A) (h : List Event)
    → (r ≡ none → P h)
    → ((a : A) → r ≡ some a → P (f a h).1)
    → let after : Option B × List Event = elim r [ some a ↦ f a h | none ↦ (none, h) ] in P after.1
resume-cases P f none h ends goes = ends refl
resume-cases P f (some a) h ends goes = goes a refl

pub bind-cases :
    {A B : Type 0} (P : List Event → Type 0) (m : Script A) (f : A → Script B) (h : List Event)
    → ((m h).0 ≡ none → P (m h).1)
    → ((a : A) → (m h).0 ≡ some a → P (f a (m h).1).1)
    → P ((m >>= f) h).1
unfolding ◌>>=◌
bind-cases P m f h ends goes = resume-cases P f (m h).0 (m h).1 ends goes

-- A part without effects.
abbrev pub IsSilent : {A : Type 0} → Script A → Type 0
IsSilent m = (h : List Event) → (m h).1 ≡ h

bind-IsSilent :
    {A B : Type 0} (m : Script A) (f : A → Script B)
    → IsSilent m
    → ((a : A) → IsSilent (f a))
    → IsSilent (m >>= f)
bind-IsSilent m f hm hf h = bind-cases (λ g. g ≡ h) m f h (λ _. hm h) (λ a _. hf a (m h).1 ∙ hm h)

-- The crate and the library that the script has built agree on the symbol prefix.
abbrev pub IsConsistent : List Event → Type 0
IsConsistent h = All (HasPrefix (is_told h)) h

-- Nothing about the prefix has been told, and no `configure` has run.
abbrev IsQuiet : List Event → Type 0
IsQuiet h = (is_told h ≡ false) × ((b : Bool) → All (HasPrefix b) h)

IsQuiet-snoc :
    (h : List Event) (line : Text)
    → IsQuiet h
    → same_bytes line prefixed_line ≡ false
    → IsQuiet (h ++ print line ∷ [])
IsQuiet-snoc h line quiet other = (
  ((snoc-Agrees false h (print line) (quiet.0, quiet.1 false) (ground (arith, other), tt)).0),
  λ b. All-snoc (HasPrefix b) h (print line) (quiet.1 b) tt,
)

module _ (p : Platform) where
  pub read_setting-IsSilent : IsSilent (read_setting p)
  unfolding read_setting expect_env
  read_setting-IsSilent =
      bind-IsSilent _ _ (λ h. refl)
        (λ _.
          bind-IsSilent _ _ (λ h. refl)
            (λ _.
              bind-IsSilent _ _ (λ h. refl)
                (λ _.
                  bind-IsSilent _ _ (λ h. refl)
                    (λ _.
                      bind-IsSilent _ _ (λ h. refl)
                        (λ _.
                          bind-IsSilent _ _ (λ h. refl)
                            (λ _. bind-IsSilent _ _ (λ h. refl) (λ _ h. refl)))))))

  -- What `announce` has told agrees with the choice that it returns.
  abbrev pub AgreesWith : Option Bool → List Event → Type 0
  AgreesWith none h = Agrees false h
  AgreesWith (some b) h = Agrees b h

  tell-AgreesWith : (c : Bool) (h : List Event) → IsQuiet h → AgreesWith (tell c h).0 (tell c h).1
  unfolding tell ◌>>=◌
  tell-AgreesWith c h quiet =
      let told = IsQuiet-snoc h _ quiet refl in
      elim c as (λ c. AgreesWith (tell c h).0 (tell c h).1) [
        | true ↦ (
          is_told-snoc (h ++ print (codes "cargo::rustc-check-cfg=cfg(prefixed)") ∷ [])
                (print prefixed_line)
              ∙ ap (λ t. t || true) told.0,
          All-snoc (HasPrefix true) _ _ (told.1 true) tt,
        )
        | false ↦ (told.0, told.1 false)
      ]

  choose-AgreesWith :
      (target : Text) (h : List Event)
      → IsQuiet h
      → let m = use_prefix p target >>= tell in AgreesWith (m h).0 (m h).1
  unfolding use_prefix ◌>>=◌
  choose-AgreesWith target h quiet =
      elim (Bool-cases (not (wants_prefix p) && any_in target no_unprefixed_malloc_targets)) [
        | inl e ↦ rw e (tell-AgreesWith true _ (IsQuiet-snoc h _ quiet refl))
        | inr e ↦ rw e (tell-AgreesWith (wants_prefix p) h quiet)
      ]

  pub announce-Agrees :
      (target : Text) → AgreesWith (announce p target []).0 (announce p target []).1
  unfolding announce ◌>>=◌
  announce-Agrees target = elim (Bool-cases (any_in target unsupported_targets)) [
    | inl e ↦ rw e (refl, tt)
    | inr e ↦ elim (Bool-cases (any_in target untested_targets)) [
      | inl u ↦ rw e (rw u (choose-AgreesWith target _ (refl, λ b. (tt, tt))))
      | inr u ↦ rw e (rw u (choose-AgreesWith target [] (refl, λ b. tt)))
    ]
  ]

  -- Behind the choice, `main` keeps to it.
  pub go_on-Keeps : (b : Bool) (setting : Setting) → Keeps b (go_on p setting b)
  unfolding go_on
  go_on-Keeps b setting = then-Keeps b _ _ (read_and_watch_env_os-Keeps b p _) (λ jemalloc.
      elim jemalloc
        as (λ j.
          Keeps b
            (elim j [ some path ↦ link_override p path | none ↦ build_bundled p setting b ])) [
              | some path ↦ link_override-Keeps b p path
              | none ↦ build_bundled-Keeps b p setting
            ])

  Agrees-IsConsistent : (b : Bool) (h : List Event) → Agrees b h → IsConsistent h
  Agrees-IsConsistent b h a = rw a.0 a.1

  AgreesWith-IsConsistent : (r : Option Bool) (h : List Event) → AgreesWith r h → IsConsistent h
  AgreesWith-IsConsistent none h a = Agrees-IsConsistent false h a
  AgreesWith-IsConsistent (some b) h a = Agrees-IsConsistent b h a

  -- However the build script ends, each `configure` that it has run had the option for the symbol
  -- prefix exactly if Cargo has been told that the crate is built with the prefix.
  pub main-IsConsistent : IsConsistent (main p []).1
  unfolding main
  main-IsConsistent =
      bind-cases IsConsistent (read_setting p) _ [] (λ _. rw (read_setting-IsSilent []) tt)
        (λ setting _. rw (read_setting-IsSilent []) (
          bind-cases IsConsistent (announce p setting.target) (go_on p setting) []
            (λ _. AgreesWith-IsConsistent _ _ (announce-Agrees setting.target))
            (λ b chosen.
              Agrees-IsConsistent b _
                (go_on-Keeps b setting _ (
                  subst (λ r. AgreesWith r (announce p setting.target []).1) chosen
                    (announce-Agrees setting.target))).0)))
