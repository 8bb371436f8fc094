-- ===== src/Global/Sessions.antt =====
-- A client of the global allocator, which keeps the contract of `GlobalAlloc`: it releases and
-- resizes only what it holds, with the layout it holds it under.
pub mod Ledger
pub mod Honoured
use jevmalloc.Prelude.{ℕ, Option, none, some, List, [], ◌∷◌, ◌==◌, if◌then◌else◌}
use jevmalloc.System.{System, Process, Outcome, ok, err, panic}
use jevmalloc.Global.Layout.{Layout}
use jevmalloc.Global.Alloc.{Build, alloc, alloc_zeroed, realloc, dealloc}
use jevmalloc.Global.Valid.{IsLayout}

pub record Held : Type 0 where
  pub ptr : ℕ
  pub layout : Layout

abbrev pub find_held : ℕ → List Held → Option Layout
find_held ptr [] = none
find_held ptr (h ∷ rest) =
    let later = find_held ptr rest in if h.ptr == ptr then some h.layout else later

abbrev pub remove_held : ℕ → List Held → List Held
remove_held ptr [] = []
remove_held ptr (h ∷ rest) =
    let later = remove_held ptr rest in if h.ptr == ptr then rest else h ∷ later

pub data Request : Type 0 where
  ask ask_zeroed : Layout → Request
  resize : ℕ → ℕ → Request
  give_back : ℕ → Request

pub record Session (W : Type 0) : Type 0 where
  pub process : Process W
  pub held : List Held

-- What is held after an answer; a null pointer is a failure.
abbrev pub took : Outcome ℕ → Layout → List Held → List Held
took (ok ptr) l held = if ptr == 0 then held else record { ptr = ptr; layout = l } ∷ held
took (err e) l held = held
took panic l held = held

abbrev pub resized : Outcome ℕ → ℕ → Layout → List Held → List Held
resized (ok ptr) old l held =
    if ptr == 0 then held else record { ptr = ptr; layout = l } ∷ remove_held old held
resized (err e) old l held = held
resized panic old l held = held

module _ {W : Type 0} (s : System W) (b : Build W) where
  resize_held : Session W → ℕ → ℕ → Option Layout → Session W
  resize_held st old size none = st
  resize_held st old size (some l) =
      let (r, p) = realloc s b old l size st.process in
      record { process = p; held = resized r old (record l { size = size }) st.held }

  release_held : Session W → ℕ → Option Layout → Session W
  release_held st ptr none = st
  release_held st ptr (some l) = record {
    process = (dealloc s b ptr l st.process).1;
    held = remove_held ptr st.held;
  }

  unfoldable pub serve : Session W → Request → Session W
  unfolding resize_held release_held
  serve st (ask l) =
      let (r, p) = alloc s b l st.process in record { process = p; held = took r l st.held }
  serve st (ask_zeroed l) =
      let (r, p) = alloc_zeroed s b l st.process in record { process = p; held = took r l st.held }
  serve st (resize old size) = resize_held st old size (find_held old st.held)
  serve st (give_back ptr) = release_held st ptr (find_held ptr st.held)

  unfoldable pub serve_all : Session W → List Request → Session W
  serve_all st [] = st
  serve_all st (r ∷ rest) = serve_all (serve st r) rest

  -- A client asks for valid layouts.
  abbrev pub IsProper : Request → Type 0
  IsProper (ask l) = IsLayout s.arch l
  IsProper (ask_zeroed l) = IsLayout s.arch l
  IsProper (resize old size) = Unit
  IsProper (give_back ptr) = Unit
