-- ===== src/BuildScript/Prefix.antt =====
-- The symbol prefix: what it means that the crate and the library that the script builds agree on it,
-- and that a part of the script keeps this.
pub mod Arguments
pub mod Parts
pub mod Bundled
pub mod Agreement
pub mod Choice
use jevmalloc.Prelude.{
  ◌≡◌, ◌⊎◌, inl, inr, refl, Bool, true, false, ◌||◌, Option, none, some, List, [], ◌∷◌, ◌++◌, arith,
  All, Bool-cases, codes, same_bytes, drop,
}
use jevmalloc.BuildScript.Bytes.{Text}
use jevmalloc.BuildScript.Script.{
  Command, Event, Platform, Script, print, run_command, remove_tree, create_dir, copy_file, compile,
  pure, expect, assert, emit, println, when, must, execute, run, ◌>>=◌,
}

abbrev pub prefixed_line : Text
prefixed_line = codes "cargo:rustc-cfg=prefixed"

abbrev pub prefix_argument : Text
prefix_argument = codes "--with-jemalloc-prefix=_rjem_"

abbrev pub has_text : Text → List Text → Bool
has_text t [] = false
has_text t (x ∷ xs) = same_bytes x t || has_text t xs

-- Whether the crate was told that its symbols have the prefix.
abbrev pub is_told : List Event → Bool
is_told [] = false
is_told (print line ∷ rest) = same_bytes line prefixed_line || is_told rest
is_told (_ ∷ rest) = is_told rest

-- A command of `sh`, which `configure` is, has the option for the prefix exactly if `b`. Its first
-- argument is the path of the script.
abbrev pub HasPrefix : Bool → Event → Type 0
HasPrefix b (run_command c) =
    (same_bytes c.program (codes "sh") ≡ false) ⊎ (has_text prefix_argument (drop 1 c.args) ≡ b)
HasPrefix b _ = Unit

-- What has happened so far agrees with the choice `b`.
abbrev pub Agrees : Bool → List Event → Type 0
Agrees b h = (is_told h ≡ b) × All (HasPrefix b) h

pub is_told-snoc :
    (h : List Event) (e : Event) → is_told (h ++ e ∷ []) ≡ (is_told h || is_told (e ∷ []))
is_told-snoc [] e = ground arith
is_told-snoc (print line ∷ h) e = ground (arith, is_told-snoc h e)
is_told-snoc (run_command c ∷ h) e = is_told-snoc h e
is_told-snoc (remove_tree t ∷ h) e = is_told-snoc h e
is_told-snoc (create_dir t ∷ h) e = is_told-snoc h e
is_told-snoc (copy_file s t ∷ h) e = is_told-snoc h e
is_told-snoc (compile s t ∷ h) e = is_told-snoc h e

pub All-snoc :
    (P : Event → Type 0) (h : List Event) (e : Event) → All P h → P e → All P (h ++ e ∷ [])
All-snoc P [] e a x = (x, tt)
All-snoc P (y ∷ h) e a x = (a.0, All-snoc P h e a.1 x)

-- An event that is not the line about the prefix, and agrees if it is `configure`.
abbrev pub IsNeutral : Bool → Event → Type 0
IsNeutral b e = (is_told (e ∷ []) ≡ false) × HasPrefix b e

pub snoc-Agrees :
    (b : Bool) (h : List Event) (e : Event) → Agrees b h → IsNeutral b e → Agrees b (h ++ e ∷ [])
snoc-Agrees b h e a n = (ground (arith, is_told-snoc h e), All-snoc (HasPrefix b) h e a.1 n.1)

-- What a part of the script promises of the value that it returns.
abbrev pub Ensures : {A : Type 0} → (A → Type 0) → Option A → Type 0
Ensures Q none = Unit
Ensures Q (some a) = Q a

-- A part of the script that keeps the agreement, and returns values with `Q`.
abbrev pub Yields : {A : Type 0} → Bool → (A → Type 0) → Script A → Type 0
Yields b Q m = (h : List Event) → Agrees b h → Agrees b (m h).1 × Ensures Q (m h).0

abbrev pub Keeps : {A : Type 0} → Bool → Script A → Type 0
Keeps b m = Yields b (λ _. Unit) m

module _ (b : Bool) where
  resume-Yields :
      {A B : Type 0} (Q : A → Type 0) (R : B → Type 0) (f : A → Script B)
      → ((a : A) → Q a → Yields b R (f a))
      → (r : Option A) (h : List Event) → Agrees b h
      → Ensures Q r
      → let after : Option B × List Event = elim r [ some a ↦ f a h | none ↦ (none, h) ] in
        Agrees b after.1 × Ensures R after.0
  resume-Yields Q R f hf none h a q = (a, tt)
  resume-Yields Q R f hf (some x) h a q = hf x q h a

  pub bind-Yields :
      {A B : Type 0} (Q : A → Type 0) (R : B → Type 0) (m : Script A) (f : A → Script B)
      → Yields b Q m
      → ((a : A) → Q a → Yields b R (f a))
      → Yields b R (m >>= f)
  unfolding ◌>>=◌
  bind-Yields Q R m f hm hf h a =
      let (a', q) = hm h a in resume-Yields Q R f hf (m h).0 (m h).1 a' q

  -- One part after another, where nothing is asked of values.
  pub then-Keeps :
      {A B : Type 0} (m : Script A) (f : A → Script B)
      → Keeps b m
      → ((a : A) → Keeps b (f a))
      → Keeps b (m >>= f)
  then-Keeps m f hm hf = bind-Yields (λ _. Unit) (λ _. Unit) m f hm (λ a _. hf a)

  pub expect-Keeps : {A : Type 0} (o : Option A) → Keeps b (expect o)
  expect-Keeps none h a = (a, tt)
  expect-Keeps (some x) h a = (a, tt)

  pub test-Keeps : (test : List Event → Bool) → Keeps b (λ h. assert (test h) h)
  test-Keeps test h a = elim (Bool-cases (test h)) [ inl e ↦ rw e (a, tt) | inr e ↦ rw e (a, tt) ]

  pub emit-Keeps : (e : Event) → IsNeutral b e → Keeps b (emit e)
  emit-Keeps e n h a = (snoc-Agrees b h e a n, tt)

  pub println-Keeps : (line : Text) → same_bytes line prefixed_line ≡ false → Keeps b (println line)
  println-Keeps line e = emit-Keeps (print line) (ground arith, tt)

  pub when-Keeps : (c : Bool) (m : Script (Unit {0})) → Keeps b m → Keeps b (when c m)
  when-Keeps true m hm h a = hm h a
  when-Keeps false m hm h a = (a, tt)

  module _ (p : Platform) where
    pub must-Keeps : (e : Event) → IsNeutral b e → Keeps b (must p e)
    must-Keeps e n h a = elim (Bool-cases (p.succeeds h e)) [
      | inl ok ↦ rw ok (snoc-Agrees b h e a n, tt)
      | inr failed ↦ rw failed (snoc-Agrees b h e a n, tt)
    ]

    pub execute-Keeps :
        (c : Command) (on_fail : Script (Unit {0}))
        → HasPrefix b (run_command c)
        → Keeps b on_fail
        → Keeps b (execute p c on_fail)
    unfolding execute
    execute-Keeps c on_fail n hf h a =
        let a' = snoc-Agrees b h (run_command c) a (refl, n) in
        elim (Bool-cases (p.starts h c)) [
          | inr lost ↦ rw lost (a', tt)
          | inl started ↦ elim (Bool-cases (p.succeeds h (run_command c))) [
            | inl good ↦ rw started (rw good (a', tt))
            | inr bad ↦ rw started (rw bad ((hf (h ++ run_command c ∷ []) a').0, tt))
          ]
        ]

    pub run-Keeps : (c : Command) → same_bytes c.program (codes "sh") ≡ false → Keeps b (run p c)
    unfolding run
    run-Keeps c e = execute-Keeps c (pure tt) (inl e) (λ h a. (a, tt))
