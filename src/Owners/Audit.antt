-- ===== src/Owners/Audit.antt =====
-- A system with a ledger beside its state, which the calls of `mallctlbymib` write.
use mathlib.Core.Path.{subst}
use jevmalloc.Prelude.{◌≤◌, ◌∙◌, sym, ◌==◌, if◌then◌else◌, ℕ, ◌≡◌, Option, List, arith, refl, ap}
use jevmalloc.System.{System, Process, Reply, Outcome, ok, err, panic}
use jevmalloc.Ctl.Raw.{Key, mibs, checked_key}
use jevmalloc.Ctl.Error.{into_result, invalid_argument, from_code}
use jevmalloc.Ctl.Caching.{IsStable}
use jevmalloc.Ctl.Queries.{converted, meaning}
use jevmalloc.Owners.Ledger.{
  Ledger, Moves, nothing, one, enter_create, enter_create-Moves, lesser-Moves,
}

-- What a call enters: by its key, the value that it is sent, and the reply.
abbrev pub Entry : Type 0
Entry = Key → Option (ℕ × ℕ) → Reply → Ledger → Ledger

module _ {W : Type 0} (s : System W) (enter : Entry) where
  unfoldable pub audited : System (W × Ledger)
  audited = record {
    arch = s.arch;
    msvc = s.msvc;
    errno = s.errno;
    mallctlnametomib =
        λ name cap (w, l). let (t, w') = s.mallctlnametomib name cap w in (t, (w', l));
    mallctlbymib = λ key old fresh (w, l).
        let (r, w') = s.mallctlbymib key old fresh w in (r, (w', enter key fresh r l));
    mallocx = λ size flags (w, l). let (ptr, w') = s.mallocx size flags w in (ptr, (w', l));
    rallocx = λ old size flags (w, l). let (ptr, w') = s.rallocx old size flags w in (ptr, (w', l));
    sdallocx = λ ptr size flags (w, l). (s.sdallocx ptr size flags w, l);
    nallocx = λ size flags (w, l). s.nallocx size flags w;
    sallocx = λ ptr flags (w, l). s.sallocx ptr flags w;
    malloc_stats_print =
        λ opts (w, l). let (fragments, w') = s.malloc_stats_print opts w in (fragments, (w', l));
    literal = s.literal;
    local_buffer = s.local_buffer;
    from_ptr = λ ptr (w, l). s.from_ptr ptr w;
    read_u64 = λ ptr (w, l). s.read_u64 ptr w;
    is_utf8 = s.is_utf8;
  }

  pub audited-IsStable : IsStable s → IsStable audited
  unfolding audited
  audited-IsStable st = record {
    read_only = λ name cap (w, l) i. (st.read_only name cap w i, l);
    fixed = λ name cap (v, _) (w, _). st.fixed name cap v w;
  }

  -- The process without the ledger.
  abbrev pub plain : Process (W × Ledger) → Process W
  plain p = record { world = p.world.0; caches = p.caches }

  -- Names are translated as without it.
  pub mibs-audited :
      (bytes : List ℕ) (p : Process (W × Ledger))
      → (mibs audited bytes p).0 ≡ (mibs s bytes (plain p)).0
  unfolding audited mibs checked_key into_result invalid_argument from_code
  mibs-audited bytes p = ground arith

converted_keeps :
    {A V : Type 0} (f : ℕ → Outcome A) (o : Outcome ℕ) (w : V) → (converted f (o, w)).1 ≡ w
converted_keeps f (ok v) w = refl
converted_keeps f (err e) w = refl
converted_keeps f panic w = refl

-- A creation that has been shown, by the reply and by what the ledger makes of it: whatever is made
-- of the identifier weighs no more than the ledger has entered.
pub creation-Moves :
    {A W : Type 0} (f : ℕ → Outcome A) (size : ℕ) (weigh : Outcome A → ℕ → ℕ) (r : Reply)
    (w : W × Ledger) (l : Ledger)
    → w.1 ≡ enter_create r.status r.value l
    → ((i : ℕ)
        → weigh (converted f (meaning size r, w)).0 i
          ≤ (if r.status == 0 then one r.value else nothing) i)
    → Moves l nothing
        (converted f (meaning size r, w)).1.1
        (weigh (converted f (meaning size r, w)).0)
creation-Moves f size weigh r w l e h =
    let shown = converted f (meaning size r, w) in
    let entered : shown.1.1 ≡ enter_create r.status r.value l =
      ap (λ v. v.1) (converted_keeps f (meaning size r) w) ∙ e in
    subst (λ l'. Moves l nothing l' (weigh shown.0)) (sym entered)
      (lesser-Moves l (enter_create r.status r.value l) nothing _ _ h
        (enter_create-Moves r.status r.value l))
