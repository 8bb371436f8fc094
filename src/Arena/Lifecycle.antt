-- ===== src/Arena/Lifecycle.antt =====
-- Ownership of arena handles: destruction happens at most once, and a failure loses nothing.
use jevmalloc.Prelude.{◌<◌, ◌≡◌, ◌≢◌, inl, inr, true, refl, arith, Bool-cases, if◌then◌else◌}
use jevmalloc.System.{Outcome, ok, err, panic, System, Process}
use jevmalloc.Ctl.Error.{invalid_argument}
use jevmalloc.Arena.Index.{arena_index_limit, validated_index, uint_try_from}
use jevmalloc.Arena.Handle.{
  Arena, Attempt, destroyed, failed, panicked, destroy_command, destroy, drop, try_destroy,
  into_index, from_owned_index, finish_destroy, disarm,
}

module _ {W : Type 0} (s : System W) where
  -- How an attempt on an owner ends, by how its destroy command ended.
  abbrev pub resolved : Arena → Outcome (Unit {0}) × Process W → Attempt × Process W
  resolved a (ok _, p') = (destroyed, p')
  resolved a (err e, p') = (failed (record { error = e; arena = a }), p')
  resolved a (panic, p') = (panicked, p')

  resolve-finish :
      (a : Arena) (r : Outcome (Unit {0})) (p' : Process W)
      → finish_destroy s ((r, disarm s r a), p') ≡ resolved a (r, p')
  unfolding finish_destroy disarm drop
  resolve-finish a (ok _) p' = refl
  resolve-finish a (err e) p' = refl
  resolve-finish a panic p' = refl

  -- An attempt on an owner runs the destroy command once: if it succeeds the handle's own drop runs
  -- no further command, and if it fails the status and the unchanged, still owning handle come
  -- back. An attempt on a handle that owns nothing is refused with `EINVAL`, gives the handle back
  -- as it was and leaves the process alone. Dropping a handle runs the command once if it owns
  -- its arena, and otherwise changes nothing.
  pub ownership :
      s.errno.einval ≢ 0
      → (a : Arena) (p : Process W)
      → (try_destroy s a p ≡ (
          if a.owned
          then resolved a (destroy_command s a p)
          else (failed (record { error = record { code = s.errno.einval }; arena = a }), p)))
        × (drop s a p ≡ (if a.owned then (destroy_command s a p).1 else p))
  unfolding try_destroy finish_destroy destroy drop invalid_argument
  ownership nz a p = elim (Bool-cases a.owned) [
    | inl owner ↦
        (let (r, p') = destroy_command s a p in
          (simp owner (resolve-finish a r p'), simp owner refl))
    | inr guest ↦ (simp guest (ground arith), simp guest refl)
  ]

  -- Ownership moves through a bare index: `into_index` disarms the handle, so its drop leaves the
  -- process alone, and `from_owned_index` gives back an owner of the same index.
  from_owned_index-into_index :
      (a : Arena) (p : Process W)
      → a.index < arena_index_limit
      → ((into_index s a p).1 ≡ p)
        × (from_owned_index s (into_index s a p).0 ≡ ok (record { index = a.index; owned = true }))
  unfolding into_index drop from_owned_index validated_index uint_try_from
  from_owned_index-into_index a p h = (refl, ground arith)
