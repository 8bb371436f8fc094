-- ===== src/Ctl/Queries.antt =====
-- Controls that are read or exchanged behind a key accessor, against one call of their key.
use jevmalloc.Prelude.{
  ℕ, ◌<◌, ◌≡◌, refl, ap, ◌∙◌, Bool, String, none, some, ◌==◌, codes, arith, if◌then◌else◌,
}
use jevmalloc.System.{
  System, Process, Reply, Outcome, ok, err, panic, Action, lift, ◌>>=◌, bind_ok, bind_err,
  bind_panic,
}
use jevmalloc.Ctl.Error.{into_result, from_code, bad_address}
use jevmalloc.Ctl.Raw.{Key, mibs, get, update, xchg}
use jevmalloc.Ctl.Key.{key}
use jevmalloc.Ctl.Value.{bool_bytes, encode_bool, decode_bool, get_bool, get_cstr, xchg_bool}
use jevmalloc.Ctl.Caching.{IsStable, IsCoherent, key_transparent}
use jevmalloc.System.{usize_bytes}

-- What a reply means to a caller that expects a value of `size` bytes.
abbrev pub meaning : ℕ → Reply → Outcome ℕ
meaning size r =
    if r.status == 0
    then (if r.len == size then ok r.value else panic)
    else err (record { code = r.status })

-- An outcome whose value goes through a conversion that may fail.
abbrev pub converted : {A B W : Type 0} → (A → Outcome B) → Outcome A × W → Outcome B × W
converted f (ok a, w) = (f a, w)
converted f (err e, w) = (err e, w)
converted f (panic, w) = (panic, w)

-- What a client sees of a run: its outcome and the state of jemalloc.
abbrev pub seen : {A W : Type 0} → Outcome A × Process W → Outcome A × W
seen (r, p) = (r, p.world)

module _ {W : Type 0} (s : System W) where
  -- One read of a key, and one exchange, as a client is to see them.
  abbrev pub read_at : ℕ → Key → W → Outcome ℕ × W
  read_at size k w =
      let (r, w') = s.mallctlbymib k (some (none, size)) none w in (meaning size r, w')

  abbrev pub exchange_at : ℕ → ℕ → Key → W → Outcome ℕ × W
  exchange_at size v k w =
      let (r, w') = s.mallctlbymib k (some (none, size)) (some (v, size)) w in (meaning size r, w')

  -- An operation on the key of a name, by how the translation of the name ends.
  abbrev pub on_key : {A : Type 0} → (Key → W → Outcome A × W) → W → Outcome Key → Outcome A × W
  on_key f w (ok k) = f k w
  on_key f w (err e) = (err e, w)
  on_key f w panic = (panic, w)

  pub get-seen :
      (size : ℕ) (k : Key) (p : Process W)
      → 0 < size
      → seen (get s size k p) ≡ read_at size k p.world
  unfolding get into_result from_code
  get-seen size k p h = ground arith

  pub xchg-seen :
      (size v : ℕ) (k : Key) (p : Process W)
      → 0 < size
      → seen (xchg s size k v p) ≡ exchange_at size v k p.world
  unfolding xchg update into_result from_code
  xchg-seen size v k p h = ground arith

  pub converted-seen :
      {A B : Type 0} (m : Action W A) (f : A → Outcome B) (p : Process W)
      → seen ((m >>= λ a. lift (f a)) p) ≡ converted f (seen (m p))
  converted-seen m f p = ground arith

  pub get_bool-seen :
      (k : Key) (p : Process W)
      → seen (get_bool s k p)
        ≡ converted (λ v. ok (decode_bool v)) (read_at (bool_bytes s.msvc) k p.world)
  unfolding get_bool bool_bytes
  get_bool-seen k p =
      converted-seen (get s (bool_bytes s.msvc) k) (λ v. ok (decode_bool v)) p
      ∙ ap (converted (λ v. ok (decode_bool v))) (get-seen (bool_bytes s.msvc) k p (ground arith))

  pub get_cstr-seen :
      (k : Key) (p : Process W)
      → 0 < usize_bytes s.arch
      → seen (get_cstr s k p)
        ≡ converted
            (λ v. if v == 0 then bad_address s.errno else ok v)
            (read_at (usize_bytes s.arch) k p.world)
  unfolding get_cstr
  get_cstr-seen k p h = ground (arith, get-seen (usize_bytes s.arch) k p h)

  pub xchg_bool-seen :
      (v : Bool) (k : Key) (p : Process W)
      → seen (xchg_bool s k v p)
        ≡ converted
            (λ v'. ok (decode_bool v'))
            (exchange_at (bool_bytes s.msvc) (encode_bool v) k p.world)
  unfolding xchg_bool bool_bytes
  xchg_bool-seen v k p =
      converted-seen (xchg s (bool_bytes s.msvc) k (encode_bool v)) (λ v'. ok (decode_bool v')) p
      ∙ ap (converted (λ v'. ok (decode_bool v')))
          (xchg-seen (bool_bytes s.msvc) (encode_bool v) k p (ground arith))

  after_lookup :
      {A : Type 0} (name : String) (body : Key → Action W A) (f : Key → W → Outcome A × W)
      (p : Process W)
      → ((k : Key) (q : Process W) → seen (body k q) ≡ f k q.world)
      → (r : Outcome Key) → (key s name p).0 ≡ r
      → seen ((key s name >>= body) p) ≡ on_key f (key s name p).1.world r
  after_lookup name body f p h (ok k) e = rw (bind_ok (key s name) body p e) (h k (key s name p).1)
  after_lookup name body f p h (err x) e = rw (bind_err (key s name) body p e) refl
  after_lookup name body f p h panic e = rw (bind_panic (key s name) body p e) refl

  -- Behind an accessor an operation is seen as it is on the translated key, in the state before.
  pub lookup-seen :
      {A : Type 0}
      → IsStable s
      → (name : String) (body : Key → Action W A) (f : Key → W → Outcome A × W) (p : Process W)
      → IsCoherent s p
      → ((k : Key) (q : Process W) → seen (body k q) ≡ f k q.world)
      → seen ((key s name >>= body) p) ≡ on_key f p.world (mibs s (codes name) p).0
  lookup-seen st name body f p c h =
      let (same, kept, _) = key_transparent s st name p c in
      after_lookup name body f p h (key s name p).0 refl ∙ (λ i. on_key f (kept i) (same i))

  caches_after_lookup :
      {A : Type 0} (name : String) (body : Key → Action W A) (p : Process W)
      → ((k : Key) (q : Process W) → (body k q).1.caches ≡ q.caches)
      → (r : Outcome Key) → (key s name p).0 ≡ r
      → ((key s name >>= body) p).1.caches ≡ (key s name p).1.caches
  caches_after_lookup name body p h (ok k) e =
      rw (bind_ok (key s name) body p e) (h k (key s name p).1)
  caches_after_lookup name body p h (err x) e = rw (bind_err (key s name) body p e) refl
  caches_after_lookup name body p h panic e = rw (bind_panic (key s name) body p e) refl

  -- An operation that leaves the statics alone keeps the state coherent behind an accessor.
  pub lookup-IsCoherent :
      {A : Type 0}
      → IsStable s
      → (name : String) (body : Key → Action W A) (p : Process W) → IsCoherent s p
      → ((k : Key) (q : Process W) → (body k q).1.caches ≡ q.caches)
      → IsCoherent s ((key s name >>= body) p).1
  lookup-IsCoherent st name body p c h other =
      rw (caches_after_lookup name body p h (key s name p).0 refl)
        ((key_transparent s st name p c).2 other)

  pub caches-get : (size : ℕ) (k : Key) (p : Process W) → (get s size k p).1.caches ≡ p.caches
  unfolding get into_result from_code
  caches-get size k p = ground arith

  pub caches-xchg : (size v : ℕ) (k : Key) (p : Process W) → (xchg s size k v p).1.caches ≡ p.caches
  unfolding xchg update into_result from_code
  caches-xchg size v k p = ground arith

-- Binding is associative at every state.
pub bind_assoc :
    {W A B C : Type 0} (m : Action W A) (f : A → Action W B) (g : B → Action W C) (p : Process W)
    → ((m >>= f) >>= g) p ≡ (m >>= λ a. f a >>= g) p
bind_assoc m f g p = ground arith

-- An operation behind an accessor is the operation on the translated key, in a process that is
-- coherent again and whose state of jemalloc is the same.
pub after_key-seen :
    {W A : Type 0} (s : System W) (st : IsStable s) (name : String) (k : Key)
    (body : Key → Action W A) (p : Process W) (f : W → Outcome A × W)
    → IsCoherent s p
    → (mibs s (codes name) p).0 ≡ ok k
    → ((q : Process W) → IsCoherent s q → seen (body k q) ≡ f q.world)
    → seen ((key s name >>= body) p) ≡ f p.world
after_key-seen s st name k body p f h e rest =
    let (same, kept, h') = key_transparent s st name p h in
    rw (bind_ok (key s name) body p (same ∙ e)) (rest (key s name p).1 h' ∙ ap f kept)
