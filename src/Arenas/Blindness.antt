-- ===== src/Arenas/Blindness.antt =====
-- The controls of all arenas are blind to the key caches.
use jevmalloc.Prelude.{Bool, true, false, String, ◌≡◌, refl}
use jevmalloc.System.{System, Outcome, ok, err, panic, Process, usize_bytes, ◌>>=◌}
use jevmalloc.Ctl.Raw.{get, xchg}
use jevmalloc.Ctl.Key.{key}
use jevmalloc.Ctl.Caching.{IsStable}
use jevmalloc.Ctl.Blindness.{
  IsBlind, lift-IsBlind, on_world-IsBlind, bind-IsBlind, on_key-IsBlind, ended-IsBlind,
  same-IsBlind, notify-IsBlind, get-IsBlind, xchg-IsBlind, on_outcome-IsBlind,
}
use jevmalloc.Arena.Index.{uint_bytes, usize_try_from}
use jevmalloc.Arena.Dss.{Dss, as_ptr}
use jevmalloc.Arena.Blindness.Texts.{read_dss-IsBlind}
use jevmalloc.Arenas.{
  PercpuMode, disabled, percpu, phycpu, select, notify, purge, decay, trim, dss, set_dss, limit,
  mode_from, percpu_mode, mode_is, is_affine, is_percpu, is_phycpu,
}

-- What a test of the mode makes of how its query ends.
abbrev test_outcome : (PercpuMode → Bool) → Outcome PercpuMode → Outcome Bool
test_outcome test (ok mode) = ok (test mode)
test_outcome test (err _) = ok false
test_outcome test panic = panic

module _ {W : Type 0} (s : System W) (st : IsStable s) where
  -- A command at the sentinel.
  command-IsBlind : (name : String) → IsBlind s (key s name >>= λ k. notify s k)
  unfolding notify
  command-IsBlind name =
      on_key-IsBlind s st name _ λ k. on_outcome-IsBlind s (select s k) _ λ k'. notify-IsBlind s k'

  pub purge-IsBlind : IsBlind s (purge s)
  unfolding purge
  purge-IsBlind = command-IsBlind "arena.0.purge"

  pub decay-IsBlind : IsBlind s (decay s)
  unfolding decay
  decay-IsBlind = command-IsBlind "arena.0.decay"

  pub trim-IsBlind : IsBlind s (trim s)
  unfolding trim
  trim-IsBlind = bind-IsBlind s (decay s) _ decay-IsBlind λ _. purge-IsBlind

  pub dss-IsBlind : IsBlind s (dss s)
  unfolding dss
  dss-IsBlind = on_key-IsBlind s st "arena.0.dss" _ λ k. on_outcome-IsBlind s (select s k) _ λ k'.
      bind-IsBlind s (get s (usize_bytes s.arch) k') _ (get-IsBlind s (usize_bytes s.arch) k')
        (read_dss-IsBlind s)

  pub set_dss-IsBlind : (v : Dss) → IsBlind s (set_dss s v)
  unfolding set_dss
  set_dss-IsBlind v = on_key-IsBlind s st "arena.0.dss" _ λ k.
      on_outcome-IsBlind s (select s k) _ λ k'.
        bind-IsBlind s (xchg s (usize_bytes s.arch) k' (as_ptr s v)) _
          (xchg-IsBlind s (usize_bytes s.arch) k' (as_ptr s v)) (read_dss-IsBlind s)

  pub limit-IsBlind : IsBlind s (limit s)
  unfolding limit
  limit-IsBlind = on_key-IsBlind s st "arenas.narenas" _ λ k.
      bind-IsBlind s (get s uint_bytes k) _ (get-IsBlind s uint_bytes k)
        λ arenas. lift-IsBlind s (usize_try_from s arenas)

  pub percpu_mode-IsBlind : IsBlind s (percpu_mode s)
  unfolding percpu_mode
  percpu_mode-IsBlind = on_key-IsBlind s st "opt.percpu_arena" _ λ k.
      bind-IsBlind s (get s (usize_bytes s.arch) k) _ (get-IsBlind s (usize_bytes s.arch) k)
        λ ptr. on_world-IsBlind s λ w. (mode_from s ptr w, w)

  -- A test of the mode, which fails as its query panics and is false on an error.
  tested-IsBlind : (test : PercpuMode → Bool) → IsBlind s (λ p. mode_is s test (percpu_mode s p))
  tested-IsBlind test =
      same-IsBlind s (λ p. (test_outcome test (percpu_mode s p).0, (percpu_mode s p).1)) _
        (λ p. mode_is_lem (percpu_mode s p).0 (percpu_mode s p).1)
        (ended-IsBlind s (percpu_mode s) (test_outcome test) percpu_mode-IsBlind)
    where
      mode_is_lem :
          (r : Outcome PercpuMode) (p : Process W)
          → (test_outcome test r, p) ≡ mode_is s test (r, p)
      mode_is_lem (ok mode) p = refl
      mode_is_lem (err e) p = refl
      mode_is_lem panic p = refl

  pub is_affine-IsBlind : IsBlind s (is_affine s)
  unfolding is_affine
  is_affine-IsBlind = tested-IsBlind (elim [ disabled ↦ false | percpu ↦ true | phycpu ↦ true ])

  pub is_percpu-IsBlind : IsBlind s (is_percpu s)
  unfolding is_percpu
  is_percpu-IsBlind = tested-IsBlind (elim [ disabled ↦ false | percpu ↦ true | phycpu ↦ false ])

  pub is_phycpu-IsBlind : IsBlind s (is_phycpu s)
  unfolding is_phycpu
  is_phycpu-IsBlind = tested-IsBlind (elim [ disabled ↦ false | percpu ↦ false | phycpu ↦ true ])
