-- ===== src/Tests/Toy.antt =====
-- A system whose state is the log of the keys that `mallctlbymib` was called with.
use jevmalloc.Prelude.{
  ℕ, ◌+◌, ◌≢◌, arith, refl, true, false, none, some, List, [], ◌∷◌, codes, length,
}
use jevmalloc.System.{System, Process, Errno, Arch}
use jevmalloc.Ctl.Raw.{split_count}
use jevmalloc.Ctl.Names.{c_string}
use jevmalloc.Ctl.Key.{new}
use jevmalloc.Ctl.Caching.{IsStable, IsCoherent, initial-IsCoherent}

abbrev pub World : Type 0
World = List (List ℕ)

abbrev pub linux : Errno
linux = record {
  eagain = 11;
  efault = 14;
  eilseq = 84;
  einval = 22;
  enoent = 2;
  enospc = 28;
  eperm = 1;
}

-- Every name has a key, and every control succeeds with the value 7.
abbrev pub toy : System World
toy = record {
  arch = Arch.x86_64;
  msvc = false;
  errno = linux;
  mallctlnametomib = λ name cap w.
      (record { status = 0; slots = λ i. i + 10; key_len = split_count (c_string name) }, w);
  mallctlbymib = λ key old fresh w.
      (record { status = 0; value = 7; len = elim old [ none ↦ 0 | some (_, n) ↦ n ] }, key ∷ w);
  mallocx = λ size flags w. (4096, (size ∷ flags ∷ []) ∷ w);
  rallocx = λ old size flags w. (8192, (old ∷ size ∷ flags ∷ []) ∷ w);
  sdallocx = λ old size flags w. (old ∷ size ∷ flags ∷ []) ∷ w;
  nallocx = λ size flags w. size;
  sallocx = λ ptr flags w. 64;
  malloc_stats_print = λ opts w. (codes "ab" ∷ codes "c" ∷ [], opts ∷ w);
  literal = λ bytes. length bytes;
  local_buffer = λ bytes. length bytes;
  from_ptr = λ ptr w. codes "primary";
  read_u64 = λ ptr w. length w;
  is_utf8 = λ bytes. true;
}

abbrev pub start : Process World
start = record { world = []; caches = λ _. new }

pub toy-IsStable : IsStable toy
toy-IsStable = record { read_only = λ name cap w. refl; fixed = λ name cap v w. refl }

pub start-IsCoherent : IsCoherent toy start
start-IsCoherent = initial-IsCoherent toy []

pub nonzero : linux.einval ≢ 0
nonzero = omega arith
