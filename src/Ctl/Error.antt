-- ===== src/Ctl/Error.antt =====
-- jevmalloc/src/ctl/error.rs, and `into_result` of jevmalloc/src/ctl/raw.rs.
use jevmalloc.Prelude.{
  ℕ, String, ◌≡◌, ◌≢◌, ◌↔◌, Bool, Option, none, some, arith, ◌==◌, if◌then◌else◌,
}
use jevmalloc.System.{Error, Errno, Outcome, ok, err, panic}

-- `Error::from_code`, with its `expect` on a zero status.
unfoldable pub from_code : {A : Type 0} → ℕ → Outcome A
from_code c = if c == 0 then panic else err (record { code = c })

-- `Error::is`
unfoldable pub is : Error → ℕ → Bool
is e c = e.code == c

module _ (c : Errno) where
  -- `Err(Error::invalid_argument())` and the other errors of the wrapper.
  unfoldable pub invalid_argument : {A : Type 0} → Outcome A
  unfolding from_code
  invalid_argument = from_code c.einval

  unfoldable pub bad_address : {A : Type 0} → Outcome A
  unfolding from_code
  bad_address = from_code c.efault

  unfoldable pub insufficient_space : {A : Type 0} → Outcome A
  unfolding from_code
  insufficient_space = from_code c.enospc

  unfoldable pub invalid_utf8 : {A : Type 0} → Outcome A
  unfolding from_code
  invalid_utf8 = from_code c.eilseq

  -- `Error::description`
  unfoldable pub description : Error → Option String
  description e =
      if e.code == c.eagain
      then some "Resource temporarily unavailable"
      else if e.code == c.efault
      then some "Bad address"
      else if e.code == c.eilseq
      then some "Invalid byte sequence"
      else if e.code == c.einval
      then some "Invalid argument"
      else if e.code == c.enoent
      then some "No such entity"
      else if e.code == c.enospc
      then some "Insufficient space"
      else if e.code == c.eperm
      then some "Operation not permitted"
      else none

-- `into_result`
unfoldable pub into_result : ℕ → Outcome (Unit {0})
unfolding from_code
into_result c = if c == 0 then ok tt else from_code c

-- What the constants of `libc` are relied on for: no errno value is zero.
pub record IsNonzero (c : Errno) : Type 0 where
  pub efault : c.efault ≢ 0
  pub eilseq : c.eilseq ≢ 0
  pub einval : c.einval ≢ 0
  pub enospc : c.enospc ≢ 0

-- A status becomes success exactly when it is zero, it becomes an error with that very code exactly
-- when it is not, and the `expect` of `from_code` never fires.
into_result_cases :
    (c : ℕ)
    → ((into_result c ≡ ok tt) ↔ (c ≡ 0))
      × ((into_result c ≡ err (record { code = c })) ↔ (c ≢ 0))
      × (into_result c ≢ panic)
unfolding into_result
into_result_cases c = ground arith
