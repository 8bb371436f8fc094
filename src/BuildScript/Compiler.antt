-- ===== src/BuildScript/Compiler.antt =====
-- The flags for the processor, and the compiler that `cc` finds with them: the middle of `main`.
use jevmalloc.Prelude.{
  Bool, true, ◌&&◌, Option, none, some, List, [], ◌∷◌, ◌++◌, if◌then◌else◌, codes, same_bytes,
}
use jevmalloc.BuildScript.Bytes.{Text, starts_with, split_once, join_spaces}
use jevmalloc.BuildScript.Script.{RustFlag, codegen, unstable, Platform, Script, pure, assert, ◌>>◌}

-- The `target-cpu` of the first such code generation flag, and the first `tune-cpu`.
unfoldable pub target_cpu : List RustFlag → Option Text
target_cpu [] = none
target_cpu (codegen opt value ∷ rest) =
    let later = target_cpu rest in if same_bytes opt (codes "target-cpu") then value else later
target_cpu (_ ∷ rest) = target_cpu rest

unfoldable pub tune_cpu : List RustFlag → Option Text
tune_cpu [] = none
tune_cpu (unstable s ∷ rest) =
    let later = tune_cpu rest in
    if starts_with s (codes "tune-cpu")
    then elim (split_once b'=' s) [ none ↦ later | some (_, v) ↦ some v ]
    else later
tune_cpu (_ ∷ rest) = tune_cpu rest

-- `value.map(|v| format!("{flag}={v}")).unwrap_or_default()`
abbrev pub flag_or_empty : Text → Option Text → Text
flag_or_empty flag none = []
flag_or_empty flag (some value) = flag ++ (codes "=" ++ value)

abbrev pub all_unicode : Platform → List Text → Bool
all_unicode p [] = true
all_unicode p (a ∷ rest) = p.is_unicode a && all_unicode p rest

module _ (p : Platform) where
  unfoldable pub find_compiler : Script (Text × Text)
  find_compiler = do
    let march = flag_or_empty (codes "-march") (target_cpu p.rust_flags)
    let mtune = flag_or_empty (codes "-mtune") (tune_cpu p.rust_flags)
    let found = p.compiler march mtune
    assert (all_unicode p found.1)
    pure (found.0, join_spaces found.1)
