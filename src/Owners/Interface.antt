-- ===== src/Owners/Interface.antt =====
-- What an owning handle promises to the programs that hold it.
use jevmalloc.Prelude.{ℕ, Bool, Option, none, some, if◌then◌else◌}
use jevmalloc.Owners.Ledger.{Ledger, Moves, nothing, one}

-- Handles `H` over a process `P`. An operation that consumes a handle may give it back; a kind of
-- handle need not be able to be turned into an identifier.
pub record Operations (P H : Type 0) : Type 0 where
  pub index : H → ℕ
  pub owned : H → Bool
  pub create : P → Option H × P
  pub borrow : ℕ → Option H
  pub try_destroy : H → P → Option H × P
  pub drop : H → P → P
  pub into_index : Option (H → P → ℕ × P)
  pub from_owned_index : ℕ → Option H

-- A handle weighs its identifier if it owns it; no handle weighs nothing.
module _ {P H : Type 0} (o : Operations P H) where
  abbrev pub weight : H → ℕ → ℕ
  weight h = if o.owned h then one (o.index h) else nothing

  abbrev pub weight_of : Option H → ℕ → ℕ
  weight_of none = nothing
  weight_of (some h) = weight h

-- Turning a handle into an identifier hands on what it owns.
abbrev pub GivesUp :
    {P H : Type 0} → Operations P H → (P → Ledger) → (P → Type 0) → Option (H → P → ℕ × P) → Type 0
GivesUp o ledger IsGood none = Unit
GivesUp {P} {H} o ledger IsGood (some into_index) =
    (h : H) (p : P)
    → IsGood p
    → Moves (ledger p) (weight o h) (ledger (into_index h p).1)
        (if o.owned h then one (into_index h p).0 else nothing)
      × IsGood (into_index h p).1

-- The contract, beside a ledger and over the processes that it is promised for: what a handle owned
-- before an operation it, or whoever gets it, owns afterwards, except what has been destroyed.
pub record IsOwner {P H : Type 0} (o : Operations P H) (ledger : P → Ledger) (IsGood : P → Type 0)
    : Type 0 where
  pub create_moves :
      (p : P)
      → IsGood p
      → Moves (ledger p) nothing (ledger (o.create p).1) (weight_of o (o.create p).0)
  pub create_good : (p : P) → IsGood p → IsGood (o.create p).1
  pub borrow_owns_nothing : (i : ℕ) (l : Ledger) → Moves l nothing l (weight_of o (o.borrow i))
  pub try_destroy_moves :
      (h : H) (p : P)
      → IsGood p
      → Moves
          (ledger p)
          (weight o h)
          (ledger (o.try_destroy h p).1)
          (weight_of o (o.try_destroy h p).0)
  pub try_destroy_good : (h : H) (p : P) → IsGood p → IsGood (o.try_destroy h p).1
  pub drop_moves :
      (h : H) (p : P) → IsGood p → Moves (ledger p) (weight o h) (ledger (o.drop h p)) nothing
  pub drop_good : (h : H) (p : P) → IsGood p → IsGood (o.drop h p)
  pub into_index_moves : GivesUp o ledger IsGood o.into_index
  pub from_owned_index_moves :
      (i : ℕ) (l : Ledger) → Moves l (one i) l (weight_of o (o.from_owned_index i))
