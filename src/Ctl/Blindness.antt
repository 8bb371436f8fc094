-- ===== src/Ctl/Blindness.antt =====
-- Actions to which the key caches make no difference: built from a translated key, calls of
-- jemalloc and pure steps, they show the same from any two coherent processes.
use mathlib.Core.Path.{subst}
use jevmalloc.Prelude.{
  ℕ, ◌≡◌, refl, sym, ap, ◌∙◌, Bool, true, false, String, Option, none, some, codes, ltb,
  if◌then◌else◌, ◌==◌,
}
use jevmalloc.System.{
  System, Process, Reply, Outcome, ok, err, panic, Action, lift, pure, assert, ◌>>=◌, ◌>>◌, bind_ok,
  bind_err, bind_panic, usize_bytes,
}
use jevmalloc.Ctl.Error.{into_result, bad_address}
use jevmalloc.Ctl.Raw
use jevmalloc.Ctl.Raw.{Key, bymib, get, update, xchg, mibs}
use jevmalloc.Ctl.Key.{key}
use jevmalloc.Ctl.Value.{bool_bytes, encode_bool, decode_bool, get_bool, get_cstr, xchg_bool}
use jevmalloc.Ctl.Caching.{IsStable, IsCoherent, key_transparent, mibs-fixed}
use jevmalloc.Ctl.Queries.{seen}

module _ {W : Type 0} (s : System W) where
  -- From two coherent processes with the same state of jemalloc an action ends with the same outcome
  -- and the same state, and both stay coherent.
  abbrev pub IsBlind : {A : Type 0} → Action W A → Type 0
  IsBlind m =
      (p q : Process W)
      → IsCoherent s p
      → IsCoherent s q
      → p.world ≡ q.world
      → (seen (m p) ≡ seen (m q)) × IsCoherent s (m p).1 × IsCoherent s (m q).1

  pub lift-IsBlind : {A : Type 0} (r : Outcome A) → IsBlind (lift r)
  lift-IsBlind r p q c d h = ((λ i. (r, h i)), c, d)

  -- A step that works on the state of jemalloc alone.
  pub on_world-IsBlind :
      {A : Type 0} (f : W → Outcome A × W)
      → IsBlind (λ p. ((f p.world).0, record p { world = (f p.world).1 }))
  on_world-IsBlind f p q c d h = ((λ i. f (h i)), c, d)

  pub bymib-IsBlind :
      (k : Key) (old : Option (Option ℕ × ℕ)) (new : Option (ℕ × ℕ)) → IsBlind (bymib s k old new)
  bymib-IsBlind k old new =
      on_world-IsBlind λ w. let (r, w') = s.mallctlbymib k old new w in (ok r, w')

  bind_at :
      {A B : Type 0} (m : Action W A) (f : A → Action W B)
      → ((a : A) → IsBlind (f a))
      → (p q : Process W) → IsCoherent s (m p).1
      → IsCoherent s (m q).1
      → (m p).1.world ≡ (m q).1.world
      → (r : Outcome A) → (m p).0 ≡ r
      → (m q).0 ≡ r
      → (seen ((m >>= f) p) ≡ seen ((m >>= f) q))
        × IsCoherent s ((m >>= f) p).1
        × IsCoherent s ((m >>= f) q).1
  bind_at m f blind p q c d h (ok a) e e' =
      rw (bind_ok m f p e) (rw (bind_ok m f q e') (blind a (m p).1 (m q).1 c d h))
  bind_at m f blind p q c d h (err x) e e' =
      rw (bind_err m f p e) (rw (bind_err m f q e') ((λ i. (err x, h i)), c, d))
  bind_at m f blind p q c d h panic e e' =
      rw (bind_panic m f p e) (rw (bind_panic m f q e') ((λ i. (panic, h i)), c, d))

  pub bind-IsBlind :
      {A B : Type 0} (m : Action W A) (f : A → Action W B)
      → IsBlind m
      → ((a : A) → IsBlind (f a))
      → IsBlind (m >>= f)
  bind-IsBlind m f first blind p q c d h =
      let (same, c', d') = first p q c d h in
      bind_at m f blind p q c' d' (ap (λ r. r.1) same) (m p).0 refl (sym (ap (λ r. r.0) same))

  pub key-IsBlind : IsStable s → (name : String) → IsBlind (key s name)
  key-IsBlind st name p q c d h =
      let (same, kept, c') = key_transparent s st name p c in
      let (same', kept', d') = key_transparent s st name q d in
      (
        (λ i. ((same ∙ mibs-fixed s st (codes name) p q ∙ sym same') i, (kept ∙ h ∙ sym kept') i)),
        c',
        d',
      )

  -- An operation on the key of a name.
  pub on_key-IsBlind :
      {A : Type 0}
      → IsStable s
      → (name : String) (body : Key → Action W A) → ((k : Key) → IsBlind (body k))
      → IsBlind (key s name >>= body)
  on_key-IsBlind st name body blind = bind-IsBlind (key s name) body (key-IsBlind st name) blind

  pub notify-IsBlind : (k : Key) → IsBlind (Raw.notify s k)
  unfolding Raw.notify
  notify-IsBlind k =
      bind-IsBlind (bymib s k none none) _ (bymib-IsBlind k none none)
        λ r. lift-IsBlind (into_result r.status)

  pub branch-IsBlind :
      {A : Type 0} (b : Bool) (m n : Action W A)
      → IsBlind m
      → IsBlind n
      → IsBlind (if b then m else n)
  branch-IsBlind true m n h h' = h
  branch-IsBlind false m n h h' = h'

  -- An assertion, and what follows it.
  pub assert-IsBlind :
      {A : Type 0} (b : Bool) (m : Action W A) → IsBlind m → IsBlind (assert b >> m)
  assert-IsBlind true m blind = blind
  assert-IsBlind false m blind = lift-IsBlind panic

  -- The checks of a reply with a value.
  checked-IsBlind :
      (size : ℕ) (r : Reply)
      → IsBlind (lift (into_result r.status) >> (assert (r.len == size) >> pure r.value))
  checked-IsBlind size r =
      bind-IsBlind (lift (into_result r.status)) _ (lift-IsBlind (into_result r.status))
        λ _. assert-IsBlind (r.len == size) (pure r.value) (lift-IsBlind (ok r.value))

  -- A call with an output slot.
  answered-IsBlind :
      (size : ℕ) (k : Key) (new : Option (ℕ × ℕ))
      → IsBlind (
          bymib s k (some (none, size)) new >>= λ r.
          lift (into_result r.status) >> (assert (r.len == size) >> pure r.value))
  answered-IsBlind size k new =
      bind-IsBlind (bymib s k (some (none, size)) new) _ (bymib-IsBlind k (some (none, size)) new)
        λ r. checked-IsBlind size r

  pub get-IsBlind : (size : ℕ) (k : Key) → IsBlind (get s size k)
  unfolding get
  get-IsBlind size k = assert-IsBlind (ltb 0 size) _ (answered-IsBlind size k none)

  pub update-IsBlind : (input size : ℕ) (k : Key) (v : ℕ) → IsBlind (update s input size k v)
  unfolding update
  update-IsBlind input size k v =
      assert-IsBlind (ltb 0 input) _
        (assert-IsBlind (ltb 0 size) _ (answered-IsBlind size k (some (v, input))))

  pub xchg-IsBlind : (size : ℕ) (k : Key) (v : ℕ) → IsBlind (xchg s size k v)
  unfolding xchg
  xchg-IsBlind size k v = update-IsBlind size size k v

  pub set-IsBlind : (size : ℕ) (k : Key) (v : ℕ) → IsBlind (Raw.set s size k v)
  unfolding Raw.set
  set-IsBlind size k v = assert-IsBlind (ltb 0 size) _ (
      bind-IsBlind (bymib s k none (some (v, size))) _ (bymib-IsBlind k none (some (v, size)))
        λ r. lift-IsBlind (into_result r.status))

  pub get_bool-IsBlind : (k : Key) → IsBlind (get_bool s k)
  unfolding get_bool
  get_bool-IsBlind k =
      bind-IsBlind (get s (bool_bytes s.msvc) k) _ (get-IsBlind (bool_bytes s.msvc) k)
        λ v. lift-IsBlind (ok (decode_bool v))

  pub get_cstr-IsBlind : (k : Key) → IsBlind (get_cstr s k)
  unfolding get_cstr
  get_cstr-IsBlind k =
      bind-IsBlind (get s (usize_bytes s.arch) k) _ (get-IsBlind (usize_bytes s.arch) k) λ v.
        branch-IsBlind (v == 0) (lift (bad_address s.errno)) (pure v)
          (lift-IsBlind (bad_address s.errno)) (lift-IsBlind (ok v))

  pub xchg_bool-IsBlind : (k : Key) (v : Bool) → IsBlind (xchg_bool s k v)
  unfolding xchg_bool
  xchg_bool-IsBlind k v =
      bind-IsBlind (xchg s (bool_bytes s.msvc) k (encode_bool v)) _
        (xchg-IsBlind (bool_bytes s.msvc) k (encode_bool v))
        λ old. lift-IsBlind (ok (decode_bool old))

  -- A step that may end the action without touching the process.
  pub on_outcome-IsBlind :
      {A B : Type 0} (r : Outcome A) (f : A → Action W B)
      → ((a : A) → IsBlind (f a))
      → IsBlind (lift r >>= f)
  on_outcome-IsBlind r f blind = bind-IsBlind (lift r) f (lift-IsBlind r) blind

  -- A step that decides by how another one ends, failure and panic included.
  pub ended-IsBlind :
      {A B : Type 0} (m : Action W A) (f : Outcome A → Outcome B)
      → IsBlind m
      → IsBlind (λ p. (f (m p).0, (m p).1))
  ended-IsBlind m f blind p q c d h =
      let (same, c', d') = blind p q c d h in ((λ i. (f (same i).0, (same i).1)), c', d')

  -- Actions that agree everywhere are blind together.
  pub same-IsBlind :
      {A : Type 0} (m n : Action W A) → ((p : Process W) → m p ≡ n p) → IsBlind m → IsBlind n
  same-IsBlind m n same = subst IsBlind λ i p. same p i

  -- A choice by whether a value is there.
  pub optional-IsBlind :
      {A B : Type 0} (o : Option A) (m : Action W B) (f : A → Action W B)
      → IsBlind m
      → ((a : A) → IsBlind (f a))
      → IsBlind (elim o [ none ↦ m | some a ↦ f a ])
  optional-IsBlind none m f h h' = h
  optional-IsBlind (some a) m f h h' = h' a

  module _ (st : IsStable s) where
    -- Shared shapes: a command, and a value that is read or exchanged.
    pub bare_command-IsBlind : (name : String) → IsBlind (key s name >>= λ k. Raw.notify s k)
    bare_command-IsBlind name = on_key-IsBlind st name _ λ k. notify-IsBlind k

    pub read-IsBlind : (size : ℕ) (name : String) → IsBlind (key s name >>= λ k. get s size k)
    read-IsBlind size name = on_key-IsBlind st name _ λ k. get-IsBlind size k

    pub exchange-IsBlind :
        (size : ℕ) (name : String) (v : ℕ) → IsBlind (key s name >>= λ k. xchg s size k v)
    exchange-IsBlind size name v = on_key-IsBlind st name _ λ k. xchg-IsBlind size k v

    pub read_flag-IsBlind : (name : String) → IsBlind (key s name >>= λ k. get_bool s k)
    read_flag-IsBlind name = on_key-IsBlind st name _ λ k. get_bool-IsBlind k

    pub switch-IsBlind : (name : String) (v : Bool) → IsBlind (key s name >>= λ k. xchg_bool s k v)
    switch-IsBlind name v = on_key-IsBlind st name _ λ k. xchg_bool-IsBlind k v
