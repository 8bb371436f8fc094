-- ===== src/Arena/Blindness/Texts.antt =====
-- The name, the precedence and the extent hooks of one arena are blind to the key caches.
use jevmalloc.Prelude.{ℕ, List, none, some, ◌≡◌, ◌==◌, replicate, arith}
use jevmalloc.System.{System, Process, ok, Action, lift, assert, usize_bytes, ◌>>=◌, ◌>>◌}
use jevmalloc.Ctl.Error.{invalid_argument, into_result}
use jevmalloc.Ctl.Raw
use jevmalloc.Ctl.Raw.{Key, bymib, get, xchg, update}
use jevmalloc.Ctl.Caching.{IsStable}
use jevmalloc.Ctl.Blindness.{
  IsBlind, lift-IsBlind, on_world-IsBlind, bind-IsBlind, on_key-IsBlind, assert-IsBlind,
  bymib-IsBlind, get-IsBlind, xchg-IsBlind, update-IsBlind, set-IsBlind, on_outcome-IsBlind,
  same-IsBlind, optional-IsBlind,
}
use jevmalloc.Extent.Hooks.{RawExtentHooks, Static}
use jevmalloc.Arena.Index.{uint_bytes}
use jevmalloc.Arena.Dss.{Dss, as_ptr, from_ptr, read_dss}
use jevmalloc.Arena.Handle.{Arena, from_created_index}
use jevmalloc.Arena.Controls.{
  selected_key, name_from, name, set_name, dss, set_dss, get_word, xchg_word, non_null_or_fault,
  extent_hooks, set_raw_extent_hooks, create_with_raw_extent_hooks, arena_name_len,
}
use jevmalloc.Arena.Blindness.{selected_key-IsBlind, get_word-IsBlind, xchg_word-IsBlind}

module _ {W : Type 0} (s : System W) where
  -- The name, read in place, as a call with checks of its reply before the text is read.
  abbrev read_name : Key → Action W (List ℕ)
  read_name k =
      let ptr = s.local_buffer (replicate arena_name_len 0) in
      bymib s k (some (some ptr, usize_bytes s.arch)) none >>= λ r.
      lift (into_result r.status)
      >> (assert (r.len == usize_bytes s.arch) >> λ p. (ok (s.from_ptr ptr p.world), p))

  read_name_lem : (k : Key) (p : Process W) → read_name k p ≡ name_from s k p
  unfolding name_from Raw.get_in_place into_result usize_bytes
  read_name_lem k p = ground arith

  name_from-IsBlind : (k : Key) → IsBlind s (name_from s k)
  name_from-IsBlind k =
      let ptr = s.local_buffer (replicate arena_name_len 0) in
      let slot = some (some ptr, usize_bytes s.arch) in
      same-IsBlind s (read_name k) (name_from s k) (read_name_lem k) (
        bind-IsBlind s (bymib s k slot none) _ (bymib-IsBlind s k slot none) λ r.
          on_outcome-IsBlind s (into_result r.status) _ λ _.
            assert-IsBlind s (r.len == usize_bytes s.arch) _
              (on_world-IsBlind s λ w. (ok (s.from_ptr ptr w), w)))

  module _ (st : IsStable s) where
    pub name-IsBlind : (a : Arena) → IsBlind s (name s a)
    unfolding name
    name-IsBlind a =
        bind-IsBlind s (selected_key s "arena.0.name" a) _
          (selected_key-IsBlind s st "arena.0.name" a) name_from-IsBlind

    pub set_name-IsBlind : (a : Arena) (address : ℕ) → IsBlind s (set_name s a address)
    unfolding set_name
    set_name-IsBlind a address =
        bind-IsBlind s (selected_key s "arena.0.name" a) _
          (selected_key-IsBlind s st "arena.0.name" a)
          λ k. set-IsBlind s (usize_bytes s.arch) k address

  -- Reading a string changes nothing.
  pub read_dss-IsBlind : (ptr : ℕ) → IsBlind s (read_dss s ptr)
  read_dss-IsBlind ptr = on_world-IsBlind s λ w. (from_ptr s ptr w, w)

  module _ (st : IsStable s) where
    pub dss-IsBlind : (a : Arena) → IsBlind s (dss s a)
    unfolding dss
    dss-IsBlind a =
        bind-IsBlind s (selected_key s "arena.0.dss" a) _
          (selected_key-IsBlind s st "arena.0.dss" a)
          λ k.
            bind-IsBlind s (get s (usize_bytes s.arch) k) _ (get-IsBlind s (usize_bytes s.arch) k)
              read_dss-IsBlind

    pub set_dss-IsBlind : (a : Arena) (v : Dss) → IsBlind s (set_dss s a v)
    unfolding set_dss
    set_dss-IsBlind a v =
        bind-IsBlind s (selected_key s "arena.0.dss" a) _
          (selected_key-IsBlind s st "arena.0.dss" a)
          λ k.
            bind-IsBlind s (xchg s (usize_bytes s.arch) k (as_ptr s v)) _
              (xchg-IsBlind s (usize_bytes s.arch) k (as_ptr s v)) read_dss-IsBlind

    pub extent_hooks-IsBlind : (a : Arena) → IsBlind s (extent_hooks s a)
    unfolding extent_hooks
    extent_hooks-IsBlind a =
        bind-IsBlind s (get_word s "arena.0.extent_hooks" a) _
          (get_word-IsBlind s st "arena.0.extent_hooks" a)
          λ hooks. lift-IsBlind s (non_null_or_fault s hooks)

    pub set_raw_extent_hooks-IsBlind :
        (a : Arena) (hooks : Static RawExtentHooks) → IsBlind s (set_raw_extent_hooks s a hooks)
    unfolding set_raw_extent_hooks
    set_raw_extent_hooks-IsBlind a hooks =
        optional-IsBlind s hooks.target.alloc _ _ (lift-IsBlind s (invalid_argument s.errno)) λ _.
          bind-IsBlind s (xchg_word s "arena.0.extent_hooks" a hooks.address) _
            (xchg_word-IsBlind s st "arena.0.extent_hooks" a hooks.address)
            λ previous. lift-IsBlind s (non_null_or_fault s previous)

    pub create_with_raw_extent_hooks-IsBlind :
        (hooks : Static RawExtentHooks) → IsBlind s (create_with_raw_extent_hooks s hooks)
    unfolding create_with_raw_extent_hooks
    create_with_raw_extent_hooks-IsBlind hooks =
        optional-IsBlind s hooks.target.alloc _ _ (lift-IsBlind s (invalid_argument s.errno)) λ _.
          on_key-IsBlind s st "arenas.create" _ λ k.
            bind-IsBlind s (update s (usize_bytes s.arch) uint_bytes k hooks.address) _
              (update-IsBlind s (usize_bytes s.arch) uint_bytes k hooks.address)
              λ index. lift-IsBlind s (from_created_index s index)
