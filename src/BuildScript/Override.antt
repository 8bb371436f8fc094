-- ===== src/BuildScript/Override.antt =====
-- The branch of `main` for a library that the caller supplies with `JEMALLOC_OVERRIDE`.
use jevmalloc.Prelude.{Option, ◌++◌, if◌then◌else◌, codes}
use jevmalloc.BuildScript.Bytes.{Text, ends_with, file_name, file_stem, parent, from_third}
use jevmalloc.BuildScript.Script.{Platform, Script, assert, expect, println, ◌>>=◌, ◌>>◌}

-- `to_str().unwrap()`
abbrev pub to_str : Platform → Option Text → Script Text
to_str p o = do text ← expect o; assert (p.is_unicode text); λ h. (Option.some text, h)

unfoldable pub link_override : Platform → Text → Script (Unit {0})
link_override p jemalloc = do
  λ h. assert (p.exists h jemalloc) h
  dir ← expect (parent jemalloc)
  println (codes "cargo:rustc-link-search=native=" ++ dir)
  stem ← to_str p (file_stem jemalloc)
  name ← to_str p (file_name jemalloc)
  let kind = if ends_with name (codes ".a") then codes "static" else codes "dylib"
  library ← expect (from_third stem)
  println (codes "cargo:rustc-link-lib=" ++ (kind ++ (codes "=" ++ library)))
