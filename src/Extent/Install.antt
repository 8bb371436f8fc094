-- ===== src/Extent/Install.antt =====
-- Installing a hook table: the raw table mirrors the callbacks, a table that cannot allocate is
-- refused before jemalloc is asked, and any other is handed over by its address.
pub mod Cases
use jevmalloc.Prelude.{
  ℕ, ◌≡◌, ◌≢◌, ◌↔◌, ◌⊎◌, true, Option, none, some, ltb, ◌==◌, if◌then◌else◌, set, arith,
}
use jevmalloc.System.{System, Process, Outcome, Error, Action, ok, err, usize_bytes}
use jevmalloc.Ctl.Raw.{Key}
use jevmalloc.Ctl.Queries.{seen, meaning, converted, exchange_at}
use jevmalloc.Extent.Hooks.{ExtentCallbacks, Trampolines, new, slot}
use jevmalloc.Arena.Handle.{Arena}

-- A slot of the raw table is empty exactly when its callback is.
abbrev pub Mirrors : {A : Type 0} → Option A → Option ℕ → Type 0
Mirrors callback raw = (raw ≡ none) ↔ (callback ≡ none)

slot-Mirrors : {A : Type 0} (callback : Option A) (t : ℕ) → Mirrors callback (slot callback t)
unfolding slot
slot-Mirrors none t = ground arith
slot-Mirrors (some f) t = ground arith

module _ {E State : Type 0} (t : Trampolines) (state : State) (c : ExtentCallbacks E State) where
  -- All nine slots of the table that `new` builds mirror the callback of their own name.
  new-Mirrors :
      let raw = (new t state c).raw in
      Mirrors c.alloc raw.alloc
      × Mirrors c.dalloc raw.dalloc
      × Mirrors c.destroy raw.destroy
      × Mirrors c.commit raw.commit
      × Mirrors c.decommit raw.decommit
      × Mirrors c.purge_lazy raw.purge_lazy
      × Mirrors c.purge_forced raw.purge_forced
      × Mirrors c.split raw.split
      × Mirrors c.merge raw.merge
  unfolding new
  new-Mirrors = (
    slot-Mirrors c.alloc t.alloc,
    slot-Mirrors c.dalloc t.dalloc,
    slot-Mirrors c.destroy t.destroy,
    slot-Mirrors c.commit t.commit,
    slot-Mirrors c.decommit t.decommit,
    slot-Mirrors c.purge_lazy t.purge_lazy,
    slot-Mirrors c.purge_forced t.purge_forced,
    slot-Mirrors c.split t.split,
    slot-Mirrors c.merge t.merge,
  )

module _ {W : Type 0} (s : System W) where
  -- A pair of a creation and a replacement that both refuse with `EINVAL`, and leave jemalloc and
  -- the key caches as they are.
  abbrev pub Refuse : Process W → Action W Arena → Action W ℕ → Type 0
  Refuse p create replace =
      let refusal : Error = record { code = s.errno.einval } in
      (create p ≡ (err refusal, p)) × (replace p ≡ (err refusal, p))

  -- The handle for the index that a creation has answered with, and the table that a replacement
  -- has answered with.
  abbrev pub created : ℕ → Outcome Arena
  created i =
      if ltb i 4095
      then ok (record { index = i; owned = true })
      else err (record { code = s.errno.einval })

  abbrev pub replaced : ℕ → Outcome ℕ
  replaced previous = if previous == 0 then err (record { code = s.errno.efault }) else ok previous

  -- The creation is seen as one call at the key `k` that sends the address of the table and reads an
  -- index of four bytes, and the replacement as one exchange of that address at the key `k'` with
  -- the index of the arena in it.
  abbrev pub Install : ℕ → Arena → Key → Key → Process W → Action W Arena → Action W ℕ → Type 0
  Install address a k k' p create replace =
      (seen (create p) ≡ (
        let (r, w) =
          s.mallctlbymib k (some (none, 4)) (some (address, usize_bytes s.arch)) p.world in
        converted created (meaning 4 r, w)))
      × (seen (replace p)
          ≡ converted replaced
              (exchange_at s (usize_bytes s.arch) address (set k' 1 a.index) p.world))

  -- A table with an allocation hook or callback is installed, and one without is refused.
  abbrev pub Decides :
      {A : Type 0}
      → Option A
      → ℕ
      → Arena
      → Key
      → Key
      → Process W
      → Action W Arena
      → Action W ℕ
      → Type 0
  Decides alloc address a k k' p create replace =
      ((alloc ≡ none) × Refuse p create replace)
      ⊎ ((alloc ≢ none) × Install address a k k' p create replace)
