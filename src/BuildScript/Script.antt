-- ===== src/BuildScript/Script.antt =====
-- The effects of the build script: what it asks of Cargo, of the file system and of other programs.
-- The diagnostic lines that Cargo does not read are left out, and what the crate `cc` prints itself.
use jevmalloc.Prelude.{Bool, true, false, Option, none, some, List, [], ◌∷◌, ◌++◌, if◌then◌else◌}
use jevmalloc.BuildScript.Bytes.{Text}

pub record Command : Type 0 where
  pub program : Text
  pub args : List Text
  -- `current_dir` and `env`
  pub dir : Option Text
  pub vars : List (Text × Text)

pub data Event : Type 0 where
  -- a line for Cargo
  print : Text → Event
  run_command : Command → Event
  remove_tree : Text → Event
  create_dir : Text → Event
  copy_file : Text → Text → Event
  -- `cc::Build::new().file(f).compile(name)`
  compile : Text → Text → Event

-- One flag of `rustflags::from_env`, as far as the script looks at it.
pub data RustFlag : Type 0 where
  codegen : Text → Option Text → RustFlag
  unstable : Text → RustFlag
  other_flag : RustFlag

-- What `read_dir` gives for a directory, entry by entry, with the directories below it. It ends
-- early where an entry, its type or the directory cannot be read.
pub data Listing : Type 0 where
  no_entries unreadable : Listing
  file : Text → Listing → Listing
  directory : Text → Listing → Listing → Listing

-- What the script runs in: its environment, its profile, the compiler that the crate `cc` chooses
-- for a pair of flags, and how what it asks for ends, after what has happened.
pub record Platform : Type 0 where
  pub env : Text → Option Text
  pub is_unicode : Text → Bool
  pub current_dir : Option Text
  pub debug_assertions : Bool
  pub rust_flags : List RustFlag
  -- the path and the arguments of the compiler
  pub compiler : Text → Text → Text × List Text
  -- the submodule `jemalloc`
  pub sources : Listing
  pub exists : List Event → Text → Bool
  -- whether a program can be started, and whether an event ends well
  pub starts : List Event → Command → Bool
  pub succeeds : List Event → Event → Bool

-- A part of the script: from what has happened to a value, or a panic, and what has happened then.
abbrev pub Script : Type 0 → Type 0
Script A = List Event → Option A × List Event

module _ {A : Type 0} where
  abbrev pub pure : A → Script A
  pure a h = (some a, h)

  abbrev pub abort : Script A
  abort h = (none, h)

  -- `expect` and `unwrap`
  abbrev pub expect : Option A → Script A
  expect o h = (o, h)

infixl 5 ◌>>=◌ ◌>>◌
unfoldable pub ◌>>=◌ : {A B : Type 0} → Script A → (A → Script B) → Script B
◌>>=◌ m f h = let (r, h') = m h in elim r [ some a ↦ f a h' | none ↦ (none, h') ]

abbrev pub ◌>>◌ : {B : Type 0} → Script (Unit {0}) → Script B → Script B
m >> k = m >>= λ _. k

abbrev pub assert : Bool → Script (Unit {0})
assert b h = (if b then some tt else none, h)

abbrev pub emit : Event → Script (Unit {0})
emit event h = (some tt, h ++ event ∷ [])

abbrev pub println : Text → Script (Unit {0})
println line = emit (print line)

-- `if c { m }`
abbrev pub when : Bool → Script (Unit {0}) → Script (Unit {0})
when true m = m
when false m = pure tt

module _ (p : Platform) where
  -- An operation whose failure is a panic.
  abbrev pub must : Event → Script (Unit {0})
  must event h = (if p.succeeds h event then some tt else none, h ++ event ∷ [])

  -- `execute`, `run` and `run_and_log`: a program that ends badly has
  -- `on_fail` run, and the script panics; it panics too if the program cannot be started.
  unfoldable pub execute : Command → Script (Unit {0}) → Script (Unit {0})
  execute cmd on_fail h =
      let h' = h ++ run_command cmd ∷ [] in
      if p.starts h cmd
      then (if p.succeeds h (run_command cmd) then (some tt, h') else (none, (on_fail h').1))
      else (none, h')

  unfoldable pub run : Command → Script (Unit {0})
  run cmd = execute cmd (pure tt)
