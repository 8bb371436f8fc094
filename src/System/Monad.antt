-- ===== src/System/Monad.antt =====
-- Calls of the crate as actions: state, jemalloc errors, and panics.
use jevmalloc.Prelude.{ℕ, ◌≡◌, String, List, Option, Bool, arith}
use jevmalloc.System.Target.{Arch}

-- `ctl::Error`: an errno value. A `c_int` is kept as its bit pattern of 32 bits.
pub record Error : Type 0 where
  pub code : ℕ

-- How a call ends: it returns `Ok`, it returns `Err`, or it panics.
pub data Outcome (A : Type 0) : Type 0 where
  ok : A → Outcome A
  err : Error → Outcome A
  panic : Outcome A

-- The errno constants of `libc`, which the platform fixes.
pub record Errno : Type 0 where
  pub eagain : ℕ
  pub efault : ℕ
  pub eilseq : ℕ
  pub einval : ℕ
  pub enoent : ℕ
  pub enospc : ℕ
  pub eperm : ℕ

-- What an FFI call with an output slot leaves behind: the status, the slot and its length.
pub record Reply : Type 0 where
  pub status : ℕ
  pub value : ℕ
  pub len : ℕ

-- The answer of `mallctlnametomib`: the status, the MIB buffer (by index) and `*miblenp`.
pub record Translation : Type 0 where
  pub status : ℕ
  pub slots : ℕ → ℕ
  pub key_len : ℕ

-- The library that the crate is linked to, and the platform.
pub record System (W : Type 0) : Type 0 where
  pub arch : Arch
  -- whether `target_env = "msvc"`, where a C boolean is a `c_int`
  pub msvc : Bool
  pub errno : Errno
  -- `mallctlnametomib(name, mibp, miblenp)`, with the capacity of the buffer
  pub mallctlnametomib : List ℕ → ℕ → W → Translation × W
  -- `mallctlbymib(mib, miblen, oldp, oldlenp, newp, newlen)`; a null pair is `none`, an output
  -- slot has contents only if it was initialised; contents are bit patterns, lengths are in bytes
  pub mallctlbymib : List ℕ → Option (Option ℕ × ℕ) → Option (ℕ × ℕ) → W → Reply × W
  -- `mallocx(size, flags)`, `rallocx(ptr, size, flags)`, `sdallocx(ptr, size, flags)`
  pub mallocx : ℕ → ℕ → W → ℕ × W
  pub rallocx : ℕ → ℕ → ℕ → W → ℕ × W
  pub sdallocx : ℕ → ℕ → ℕ → W → W
  -- `nallocx(size, flags)` and `sallocx(ptr, flags)`, which only read
  pub nallocx : ℕ → ℕ → W → ℕ
  pub sallocx : ℕ → ℕ → W → ℕ
  -- the fragments that `malloc_stats_print` hands to its writer, for an option string
  pub malloc_stats_print : List ℕ → W → List (List ℕ) × W
  -- the address of a static C literal, and `CStr::from_ptr(p).to_bytes()`
  pub literal : List ℕ → ℕ
  -- the address of a live buffer on the stack that holds these bytes when a call begins
  pub local_buffer : List ℕ → ℕ
  pub from_ptr : ℕ → W → List ℕ
  -- a load of a `u64` through a pointer
  pub read_u64 : ℕ → W → ℕ
  -- `str::from_utf8(bytes).is_ok()`
  pub is_utf8 : List ℕ → Bool

-- One static `Cache` of ctl/key/cache.rs.
pub record Cache : Type 0 where
  pub len : ℕ
  pub segments : List ℕ

-- The state of the process: jemalloc's, and the statics that `define_key!` declares, by name.
pub record Process (W : Type 0) : Type 0 where
  pub world : W
  pub caches : String → Cache

abbrev pub Action : Type 0 → Type 0 → Type 0
Action W A = Process W → Outcome A × Process W

module _ {W A : Type 0} where
  abbrev pub pure : A → Action W A
  pure a p = (ok a, p)

  abbrev pub fail : Error → Action W A
  fail e p = (err e, p)

  abbrev pub abort : Action W A
  abort p = (panic, p)

  abbrev pub lift : Outcome A → Action W A
  lift r p = (r, p)

-- The `?` operator, and the unwinding of a panic.
infixl 5 ◌>>=◌ ◌>>◌
abbrev pub ◌>>=◌ : {W A B : Type 0} → Action W A → (A → Action W B) → Action W B
◌>>=◌ m f p =
    let (r, p') = m p in elim r [ ok a ↦ f a p' | err e ↦ (err e, p') | panic ↦ (panic, p') ]

abbrev pub ◌>>◌ : {W B : Type 0} → Action W (Unit {0}) → Action W B → Action W B
m >> k = m >>= λ _. k

-- `assert!`
abbrev pub assert : {W : Type 0} → Bool → Action W (Unit {0})
assert b p = (elim b [ Bool.true ↦ ok tt | Bool.false ↦ panic ], p)

-- A bind, by how its first part ends.
module _ {W A B : Type 0} (m : Action W A) (f : A → Action W B) (p : Process W) where
  pub bind_ok : {a : A} → (m p).0 ≡ ok a → (m >>= f) p ≡ f a (m p).1
  bind_ok h = ground arith

  pub bind_err : {e : Error} → (m p).0 ≡ err e → (m >>= f) p ≡ (err e, (m p).1)
  bind_err h = ground arith

  pub bind_panic : (m p).0 ≡ panic → (m >>= f) p ≡ (panic, (m p).1)
  bind_panic h = ground arith
