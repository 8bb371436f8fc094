-- ===== src/BuildScript/Prefix/Parts.antt =====
-- The parts of `main` keep what has happened in agreement with the choice of the prefix.
use jevmalloc.Prelude.{inl, inr, refl, Bool, not, Option, Bool-cases, Option-cases, codes}
use jevmalloc.BuildScript.Bytes.{Text, contains_text, join_path, parent}
use jevmalloc.BuildScript.Script.{
  create_dir, Listing, no_entries, unreadable, file, directory, Platform, Script, remove_tree, pure,
  ◌>>◌,
}
use jevmalloc.BuildScript.Variables.{
  env_var, read_and_watch_env_impl, prefixed_name, read_and_watch_env, read_and_watch_env_os,
  filled,
}
use jevmalloc.BuildScript.Override.{link_override, to_str}
use jevmalloc.BuildScript.Main.{
  Setting, make_dir, copy_entries, copy_recursively, copy_sources, link_library,
}
use jevmalloc.BuildScript.Prefix.{
  Keeps, then-Keeps, expect-Keeps, test-Keeps, println-Keeps, when-Keeps, must-Keeps,
}

module _ (b : Bool) where
  pub seq-Keeps :
      {A : Type 0} (m : Script (Unit {0})) (k : Script A) → Keeps b m → Keeps b k → Keeps b (m >> k)
  seq-Keeps m k hm hk = then-Keeps b m (λ _. k) hm (λ _. hk)

  pub pure-Keeps : {A : Type 0} (x : A) → Keeps b (pure x)
  pure-Keeps x h a = (a, tt)

  module _ (p : Platform) where
    read_and_watch_env_impl-Keeps :
        (name : Text) (getter : Text → Option Text)
        → Keeps b (read_and_watch_env_impl p name getter)
    unfolding read_and_watch_env_impl
    read_and_watch_env_impl-Keeps name getter = then-Keeps b _ _ (expect-Keeps b _) (λ target.
        seq-Keeps _ _ (println-Keeps b _ refl)
          (elim (Option-cases (getter (prefixed_name target name))) [
            | inl absent ↦
                rw absent (seq-Keeps _ _ (println-Keeps b _ refl) (pure-Keeps (getter name)))
            | inr (v, found) ↦ rw found (pure-Keeps (Option.some v))
          ]))

    pub read_and_watch_env-Keeps : (name : Text) → Keeps b (read_and_watch_env p name)
    unfolding read_and_watch_env
    read_and_watch_env-Keeps name = read_and_watch_env_impl-Keeps name (λ n. filled (env_var p n))

    pub read_and_watch_env_os-Keeps : (name : Text) → Keeps b (read_and_watch_env_os p name)
    unfolding read_and_watch_env_os
    read_and_watch_env_os-Keeps name = read_and_watch_env_impl-Keeps name p.env

    to_str-Keeps : (o : Option Text) → Keeps b (to_str p o)
    to_str-Keeps o =
        then-Keeps b _ _ (expect-Keeps b o)
          (λ text. seq-Keeps _ _ (test-Keeps b (λ _. p.is_unicode text)) (pure-Keeps text))

    pub link_override-Keeps : (path : Text) → Keeps b (link_override p path)
    unfolding link_override
    link_override-Keeps path = seq-Keeps _ _ (test-Keeps b (λ h. p.exists h path)) (
        then-Keeps b _ _ (expect-Keeps b (parent path)) (λ dir.
          seq-Keeps _ _ (println-Keeps b _ refl) (
            then-Keeps b _ _ (to_str-Keeps _) (λ stem.
              then-Keeps b _ _ (to_str-Keeps _) (λ name.
                then-Keeps b _ _ (expect-Keeps b _) (λ library. println-Keeps b _ refl))))))

    make_dir-Keeps : (dst : Text) → Keeps b (make_dir p dst)
    make_dir-Keeps dst h a =
        when-Keeps b (not (p.exists h dst)) _ (must-Keeps b p (create_dir dst) (refl, tt)) h a

    copy_entries-Keeps :
        (src dst : Text) (listing : Listing) → Keeps b (copy_entries p src dst listing)
    unfolding copy_entries
    copy_entries-Keeps src dst no_entries = pure-Keeps tt
    copy_entries-Keeps src dst unreadable = λ h a. (a, tt)
    copy_entries-Keeps src dst (file name rest) =
        seq-Keeps _ _ (must-Keeps b p _ (refl, tt)) (copy_entries-Keeps src dst rest)
    copy_entries-Keeps src dst (directory name below rest) =
        seq-Keeps _ _ (make_dir-Keeps (join_path dst name)) (
          seq-Keeps _ _ (copy_entries-Keeps (join_path src name) (join_path dst name) below)
            (copy_entries-Keeps src dst rest))

    copy_recursively-Keeps :
        (src dst : Text) (listing : Listing) → Keeps b (copy_recursively p src dst listing)
    unfolding copy_recursively
    copy_recursively-Keeps src dst listing =
        seq-Keeps _ _ (make_dir-Keeps dst) (copy_entries-Keeps src dst listing)

    pub copy_sources-Keeps : (out_dir build_dir : Text) → Keeps b (copy_sources p out_dir build_dir)
    unfolding copy_sources
    copy_sources-Keeps out_dir build_dir = seq-Keeps _ _ (test-Keeps b (λ h. p.exists h out_dir)) (
        seq-Keeps _ _ (println-Keeps b _ refl) (
          seq-Keeps _ _
            (λ h a.
              when-Keeps b (p.exists h build_dir) _
                (must-Keeps b p (remove_tree build_dir) (refl, tt)) h a)
            (seq-Keeps _ _ (copy_recursively-Keeps _ _ p.sources) (
              seq-Keeps _ _ (test-Keeps b (λ h. p.exists h build_dir))
                (must-Keeps b p _ (refl, tt))))))

    pub link_library-Keeps :
        (setting : Setting) (build_dir : Text) → Keeps b (link_library p setting build_dir)
    unfolding link_library
    link_library-Keeps setting build_dir = seq-Keeps _ _ (println-Keeps b _ refl) (
        seq-Keeps _ _
          (elim (Bool-cases (contains_text setting.target (codes "windows"))) [
            | inl e ↦ rw e (println-Keeps b _ refl)
            | inr e ↦ rw e (println-Keeps b _ refl)
          ])
          (seq-Keeps _ _ (println-Keeps b _ refl) (
            seq-Keeps _ _ (when-Keeps b _ _ (println-Keeps b _ refl)) (
              seq-Keeps _ _ (when-Keeps b _ _ (println-Keeps b _ refl)) (
                seq-Keeps _ _ (println-Keeps b _ refl) (
                  when-Keeps b _ _
                    (seq-Keeps _ _ (must-Keeps b p _ (refl, tt)) (println-Keeps b _ refl))))))))
