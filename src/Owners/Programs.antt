-- ===== src/Owners/Programs.antt =====
-- Programs that create, lend, give up and destroy resources, with any number of handles at once.
use jevmalloc.Prelude.{ℕ, zero, suc, ◌+◌, Option, none, some, List, [], ◌∷◌, if◌then◌else◌}
use jevmalloc.Owners.Interface.{Operations, weight}

-- A handle is named by its place among those that are held, an identifier that an owner was turned
-- into by its place among those that were released: no identifier is made an owner twice.
pub data Request : Type 0 where
  create : Request
  borrow : ℕ → Request
  try_destroy drop into_index from_owned_index : ℕ → Request

-- The element at a place, and the list without it.
abbrev pub behind : {A : Type 0} → A → Option (A × List A) → Option (A × List A)
behind x none = none
behind x (some (y, rest)) = some (y, x ∷ rest)

abbrev pub pick : {A : Type 0} → ℕ → List A → Option (A × List A)
pick i [] = none
pick zero (x ∷ xs) = some (x, xs)
pick (suc i) (x ∷ xs) = behind x (pick i xs)

abbrev pub with : {A : Type 0} → Option A → List A → List A
with none xs = xs
with (some x) xs = x ∷ xs

abbrev pub total : {A : Type 0} → (A → ℕ) → List A → ℕ
total f [] = 0
total f (x ∷ xs) = f x + total f xs

pub record Program (P H : Type 0) : Type 0 where
  pub process : P
  pub held : List H
  pub released : List ℕ

module _ {P H : Type 0} (o : Operations P H) where
  abbrev pub destroyed : Program P H → Option (H × List H) → Program P H
  destroyed st none = st
  destroyed st (some (h, rest)) =
      let (back, p) = o.try_destroy h st.process in record st { process = p; held = with back rest }

  abbrev pub dropped : Program P H → Option (H × List H) → Program P H
  dropped st none = st
  dropped st (some (h, rest)) = record st { process = o.drop h st.process; held = rest }

  -- Only the identifier of an owner is kept: whoever has it owns the resource.
  abbrev pub given_up : Option (H → P → ℕ × P) → Program P H → Option (H × List H) → Program P H
  given_up none st picked = st
  given_up (some f) st none = st
  given_up (some f) st (some (h, rest)) =
      let (i, p) = f h st.process in
      record {
        process = p;
        held = rest;
        released = if o.owned h then i ∷ st.released else st.released;
      }

  abbrev pub reclaimed : Program P H → Option (ℕ × List ℕ) → Program P H
  reclaimed st none = st
  reclaimed st (some (i, rest)) = record st {
    held = with (o.from_owned_index i) st.held;
    released = rest;
  }

  unfoldable pub serve : Program P H → Request → Program P H
  serve st create =
      let (h, p) = o.create st.process in record st { process = p; held = with h st.held }
  serve st (borrow i) = record st { held = with (o.borrow i) st.held }
  serve st (try_destroy k) = destroyed st (pick k st.held)
  serve st (drop k) = dropped st (pick k st.held)
  serve st (into_index k) = given_up o.into_index st (pick k st.held)
  serve st (from_owned_index k) = reclaimed st (pick k st.released)

  unfoldable pub serve_all : Program P H → List Request → Program P H
  serve_all st [] = st
  serve_all st (r ∷ rest) = serve_all (serve st r) rest

  -- How many of the handles that are held own an identifier.
  abbrev pub owners : List H → ℕ → ℕ
  owners held i = total (λ h. weight o h i) held
