-- ===== src/BuildScript/Variables.antt =====
-- Reading environment variables, and telling Cargo to watch them.
use jevmalloc.Prelude.{Bool, true, false, Option, none, some, [], ◌∷◌, ◌++◌, if◌then◌else◌, codes}
use jevmalloc.BuildScript.Bytes.{Text, to_uppercase, replace_byte}
use jevmalloc.BuildScript.Script.{Platform, Script, pure, expect, println, ◌>>=◌, ◌>>◌}

abbrev pub is_some : {A : Type 0} → Option A → Bool
is_some none = false
is_some (some _) = true

-- The name of a variable with the target in front of it.
unfoldable pub prefixed_name : Text → Text → Text
prefixed_name target name = replace_byte b'-' b'_' (to_uppercase target) ++ (codes "_" ++ name)

-- `filter(|v| !v.is_empty())`
abbrev pub filled : Option Text → Option Text
filled none = none
filled (some []) = none
filled (some (c ∷ value)) = some (c ∷ value)

module _ (p : Platform) where
  -- `env::var(name).ok()`
  unfoldable pub env_var : Text → Option Text
  env_var name = elim (p.env name) [
    | none ↦ none
    | some value ↦ if p.is_unicode value then some value else none
  ]

  unfoldable pub expect_env : Text → Script Text
  expect_env name = expect (env_var name)

  unfoldable pub read_and_watch_env_impl : Text → (Text → Option Text) → Script (Option Text)
  read_and_watch_env_impl name env_getter = do
    target ← expect (env_var (codes "TARGET"))
    let long_name = prefixed_name target name
    println (codes "cargo:rerun-if-env-changed=" ++ long_name)
    elim (env_getter long_name) [
      | some value ↦ pure (some value)
      | none ↦ do println (codes "cargo:rerun-if-env-changed=" ++ name); pure (env_getter name)
    ]

  unfoldable pub read_and_watch_env : Text → Script (Option Text)
  read_and_watch_env name = read_and_watch_env_impl name (λ n. filled (env_var n))

  unfoldable pub read_and_watch_env_os : Text → Script (Option Text)
  read_and_watch_env_os name = read_and_watch_env_impl name p.env
