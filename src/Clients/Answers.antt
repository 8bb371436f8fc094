-- ===== src/Clients/Answers.antt =====
-- What a client of the controls may be answered.
use jevmalloc.Prelude.{ℕ, Bool, List}
use jevmalloc.System.{System, Action, ok, pure, ◌>>=◌}
use jevmalloc.Ctl.Blindness.{IsBlind, bind-IsBlind, lift-IsBlind}
use jevmalloc.Arena.Handle.{Arena}
use jevmalloc.Arena.Handle
use jevmalloc.Arena.Dss.{Dss}
use jevmalloc.Arenas.{PercpuMode}
use jevmalloc.Thread.Cache.{ThreadCache}
use jevmalloc.Thread.Cache
use jevmalloc.Thread.Counters.{ThreadCounters}

pub data Answer : Type 0 where
  nothing : Answer
  number : ℕ → Answer
  flag : Bool → Answer
  text : List ℕ → Answer
  arena : Arena → Answer
  cache : ThreadCache → Answer
  precedence : Dss → Answer
  mode : PercpuMode → Answer
  counters : ThreadCounters → Answer
  arena_ended : Handle.Attempt → Answer
  cache_ended : Cache.Attempt → Answer

abbrev pub no_value : Unit {0} → Answer
no_value _ = nothing

module _ {W : Type 0} where
  abbrev pub answered : {A : Type 0} → (A → Answer) → Action W A → Action W Answer
  answered f m = m >>= λ a. pure (f a)

  pub answered-IsBlind :
      (s : System W) {A : Type 0} (f : A → Answer) (m : Action W A)
      → IsBlind s m
      → IsBlind s (answered f m)
  answered-IsBlind s f m blind = bind-IsBlind s m _ blind λ a. lift-IsBlind s (ok (f a))
