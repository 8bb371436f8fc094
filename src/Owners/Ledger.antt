-- ===== src/Owners/Ledger.antt =====
-- The resources that the library has given out and not taken back, by their identifiers, and how
-- many of them a program may still name.
use jevmalloc.Prelude.{
  ℕ, ◌+◌, ◌≤◌, ◌≡◌, Bool, true, ◌&&◌, List, [], ◌∷◌, ◌==◌, if◌then◌else◌, contains, arith,
}

-- `honoured` as long as every resource that was to be destroyed was live.
pub record Ledger : Type 0 where
  pub live : List ℕ
  pub honoured : Bool

abbrev pub nothing_live : Ledger
nothing_live = record { live = []; honoured = true }

abbrev pub remove : ℕ → List ℕ → List ℕ
remove i [] = []
remove i (x ∷ xs) = let rest = remove i xs in if x == i then xs else x ∷ rest

abbrev pub count : ℕ → List ℕ → ℕ
count i [] = 0
count i (x ∷ xs) = (if x == i then 1 else 0) + count i xs

-- A creation that has ended with this status and identifier.
abbrev pub enter_create : ℕ → ℕ → Ledger → Ledger
enter_create status i l = if status == 0 then record l { live = i ∷ l.live } else l

-- A request to destroy `i` that has ended with this status.
abbrev pub enter_destroy : ℕ → ℕ → Ledger → Ledger
enter_destroy status i l = record {
  live = if status == 0 then remove i l.live else l.live;
  honoured = l.honoured && contains l.live i;
}

-- A ledger backs a weight: nothing has gone wrong, and each identifier is live at least as often as
-- the weight has it.
abbrev pub Backs : Ledger → (ℕ → ℕ) → Type 0
Backs l w = (l.honoured ≡ true) × ((i : ℕ) → w i ≤ count i l.live)

-- The weight of one identifier.
abbrev pub one : ℕ → ℕ → ℕ
one i j = if i == j then 1 else 0

contains-count : (i : ℕ) (xs : List ℕ) → 1 ≤ count i xs → contains xs i ≡ true
contains-count i [] h = absurd (omega arith)
contains-count i (x ∷ xs) h = ground (arith, contains-count i xs)

count-remove : (i j : ℕ) (xs : List ℕ) → count j xs ≤ one i j + count j (remove i xs)
count-remove i j [] = omega arith
count-remove i j (x ∷ xs) = ground (arith, count-remove i j xs)

-- What a step does to a weight, whatever else is held beside it.
abbrev pub Moves : Ledger → (ℕ → ℕ) → Ledger → (ℕ → ℕ) → Type 0
Moves l before l' after =
    (rest : ℕ → ℕ) → Backs l (λ i. before i + rest i) → Backs l' (λ i. after i + rest i)

abbrev pub nothing : ℕ → ℕ
nothing i = 0

pub enter_create-Moves :
    (status i : ℕ) (l : Ledger)
    → Moves l nothing (enter_create status i l) (if status == 0 then one i else nothing)
enter_create-Moves status i l rest (h, b) = (ground arith, λ j. ground (arith, b j))

pub enter_destroy-Moves :
    (status i : ℕ) (l : Ledger)
    → Moves l (one i) (enter_destroy status i l) (if status == 0 then nothing else one i)
enter_destroy-Moves status i l rest (h, b) =
    let listed : contains l.live i ≡ true = contains-count i l.live (ground (arith, b i)) in
    (ground arith, λ j. ground (arith, b j, count-remove i j l.live))

-- A ledger that backs a weight backs every lesser one.
pub lesser : (l : Ledger) (v w : ℕ → ℕ) → ((i : ℕ) → v i ≤ w i) → Backs l w → Backs l v
lesser l v w h (fine, b) = (fine, λ i. omega (arith, h i, b i))

-- A step that leaves a weight leaves every lesser one.
pub lesser-Moves :
    (l l' : Ledger) (before after after' : ℕ → ℕ)
    → ((i : ℕ) → after' i ≤ after i)
    → Moves l before l' after
    → Moves l before l' after'
lesser-Moves l l' before after after' h m rest b =
    lesser l' _ _ (λ i. omega (arith, h i)) (m rest b)

-- Nothing changes hands where nothing is sent.
pub stays : (l : Ledger) (w : ℕ → ℕ) → Moves l w l w
stays l w rest b = b
