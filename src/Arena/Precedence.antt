-- ===== src/Arena/Precedence.antt =====
-- The strings of the precedence: what is sent for a setting is read back as that setting.
use jevmalloc.Prelude.{ℕ, ◌≡◌, ◌≢◌, refl, List, false, ◌==◌, codes, arith}
use jevmalloc.System.{System, ok}
use jevmalloc.Arena.Dss.{Dss, disabled, primary, secondary, as_ptr, from_ptr}

module _ {W : Type 0} (s : System W) where
  -- A C literal is in static storage: it is not null, and its bytes are read back at any time.
  pub record IsStatic (bytes : List ℕ) : Type 0 where
    pub non_null : s.literal bytes ≢ 0
    pub contents : (w : W) → s.from_ptr (s.literal bytes) w ≡ bytes

  read_back :
      (bytes : List ℕ) (w : W)
      → IsStatic bytes
      → ((s.literal bytes == 0) ≡ false) × (s.from_ptr (s.literal bytes) w ≡ bytes)
  read_back bytes w h = (ground (arith, h.non_null), h.contents w)

  -- If the three literals are in static storage, then reading the pointer that a setting is sent as
  -- gives the same setting back, in every state.
  pub from_ptr-as_ptr :
      IsStatic (codes "disabled")
      → IsStatic (codes "primary")
      → IsStatic (codes "secondary")
      → (d : Dss) (w : W) → from_ptr s (as_ptr s d) w ≡ ok d
  unfolding from_ptr as_ptr
  from_ptr-as_ptr hd hp hs disabled w =
      let (e, t) = read_back (codes "disabled") w hd in rw e (rw t refl)
  from_ptr-as_ptr hd hp hs primary w =
      let (e, t) = read_back (codes "primary") w hp in rw e (rw t refl)
  from_ptr-as_ptr hd hp hs secondary w =
      let (e, t) = read_back (codes "secondary") w hs in rw e (rw t refl)
