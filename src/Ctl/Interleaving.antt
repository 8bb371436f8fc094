-- ===== src/Ctl/Interleaving.antt =====
-- Concurrent callers of a key accessor, one step of one caller: what it keeps.
use jevmalloc.Prelude.{
  ℕ, suc, ◌+◌, ◌-◌, ◌≤◌, ◌<◌, ◌≡◌, ◌⊎◌, inl, inr, refl, sym, ap, ◌∙◌, true, false, none, some, [],
  ◌∷◌, ◌++◌, arith, Bool-cases, Option-cases, ltb, ◌==◌, ==_iff, length, take, set, get_elem?,
  length-append, get_elem?-set_same, get_elem?-set_other, get_elem?-some_lt, get_elem?-none_le,
  take-suc, take_all, length-set,
}
use jevmalloc.System.{Errno, Outcome, ok, Cache}
use jevmalloc.Ctl.Raw.{Key, key_segs}
use jevmalloc.Ctl.Key.Threads.{Phase, before_load, storing, reading, finished, translated, step}

module _ (c : Errno) (k : Key) where
  -- A slot holds its component of the key.
  abbrev pub HoldsAt : Cache → ℕ → Type 0
  HoldsAt cache j = get_elem? cache.segments j ≡ get_elem? k j

  -- A static is unpublished, or it is published whole.
  pub record IsWhole (cache : Cache) : Type 0 where
    pub capacity : length cache.segments ≡ key_segs
    pub published :
        (cache.len ≡ 0) ⊎ ((cache.len ≡ length k) × ((j : ℕ) → j < length k → HoldsAt cache j))

  -- What is true of a caller at each point.
  abbrev pub IsSoundAt : Cache → Phase → Type 0
  IsSoundAt cache before_load = Unit
  IsSoundAt cache (storing k' i) = (k' ≡ k) × (i ≤ length k) × ((j : ℕ) → j < i → HoldsAt cache j)
  IsSoundAt cache (reading len key) =
      (len ≡ length k)
      × ((j : ℕ) → j < length k → HoldsAt cache j)
      × (length key ≤ length k)
      × (key ≡ take (length key) k)
  IsSoundAt cache (finished r) = r ≡ ok k

  -- How many steps a caller has left at most.
  abbrev pub left : Phase → ℕ
  left before_load = length k + 2
  left (storing k' i) = suc (length k) - i
  left (reading len key) = suc (length k) - length key
  left (finished r) = 0

  pub record Advances (cache cache' : Cache) (phase phase' : Phase) : Type 0 where
    pub whole : IsWhole cache'
    pub keeps : (j : ℕ) → HoldsAt cache j → HoldsAt cache' j
    pub sound : IsSoundAt cache' phase'
    pub fewer : left phase' ≤ left phase - 1

  -- A store of a component at its own place keeps what the slots hold, and adds that place.
  store-HoldsAt :
      (cache : Cache) (i x : ℕ)
      → length k ≤ length cache.segments
      → get_elem? k i ≡ some x
      → let cache' = record cache { segments = set cache.segments i x } in
        ((j : ℕ) → HoldsAt cache j → HoldsAt cache' j) × HoldsAt cache' i
  store-HoldsAt cache i x room e =
      let below : i < length k = get_elem?-some_lt k i e in
      let here : get_elem? (set cache.segments i x) i ≡ get_elem? k i =
        get_elem?-set_same cache.segments i x (omega arith) ∙ sym e in
      (
        (λ j h. elim (Bool-cases (j == i)) [
          | inl same ↦ (let e' : j ≡ i = (==_iff j i).0 same in rw e' here)
          | inr differs ↦ get_elem?-set_other cache.segments i j x (ground arith) ∙ h
        ]),
        here,
      )

  step_store :
      (r : Outcome Key) (cache : Cache) (i : ℕ) {x : ℕ}
      → get_elem? k i ≡ some x
      → step c r cache (storing k i)
        ≡ (record cache { segments = set cache.segments i x }, storing k (suc i))
  unfolding step
  step_store r cache i e = ground arith

  step_release :
      (r : Outcome Key) (cache : Cache) (i : ℕ)
      → get_elem? k i ≡ none
      → step c r cache (storing k i) ≡ (record cache { len = length k }, finished (ok k))
  unfolding step
  step_release r cache i e = ground arith

  abbrev pub AdvancesTo : Cache → Phase → Cache × Phase → Type 0
  AdvancesTo cache phase (cache', phase') = Advances cache cache' phase phase'

  storing-AdvancesTo :
      (r : Outcome Key) (cache : Cache) (i : ℕ)
      → length k ≤ key_segs
      → IsWhole cache
      → i ≤ length k
      → ((j : ℕ) → j < i → HoldsAt cache j)
      → AdvancesTo cache (storing k i) (step c r cache (storing k i))
  storing-AdvancesTo r cache i fits w bound stored = elim (Option-cases (get_elem? k i)) [
    | inl at_end ↦
        (let long = get_elem?-none_le k i at_end in
          rw (step_release r cache i at_end) record {
            whole = record {
              capacity = w.capacity;
              published = inr (refl, λ j h. stored j (omega arith));
            };
            keeps = λ j h. h;
            sound = refl;
            fewer = omega arith;
          })
    | inr (x, e) ↦
        (let below = get_elem?-some_lt k i e in
          let (keeps, here) = store-HoldsAt cache i x (omega (arith, w.capacity)) e in
          rw (step_store r cache i e) record {
            whole = record {
              capacity = length-set cache.segments i x ∙ w.capacity;
              published = elim w.published [
                | inl empty ↦ inl empty
                | inr (len, all) ↦ inr (len, λ j h. keeps j (all j h))
              ];
            };
            keeps = keeps;
            sound = (
              refl,
              omega arith,
              λ j h. elim (Bool-cases (j == i)) [
                | inl same ↦ (let e' : j ≡ i = (==_iff j i).0 same in rw e' here)
                | inr differs ↦ keeps j (stored j (ground arith))
              ],
            );
            fewer = omega arith;
          })
  ]

  reading-AdvancesTo :
      (r : Outcome Key) (cache : Cache) (key : Key)
      → length k ≤ key_segs
      → IsWhole cache
      → ((j : ℕ) → j < length k → HoldsAt cache j)
      → length key ≤ length k
      → key ≡ take (length key) k
      → AdvancesTo cache (reading (length k) key) (step c r cache (reading (length k) key))
  unfolding step
  reading-AdvancesTo r cache key fits w all bound prefix =
      elim (Bool-cases (ltb (length key) (length k))) [
        | inl more ↦ elim (Option-cases (get_elem? k (length key))) [
          | inl at_end ↦ absurd (ground (arith, get_elem?-none_le k (length key) at_end))
          | inr (x, e) ↦
              (let held : get_elem? cache.segments (length key) ≡ some x =
                  all (length key) (ground arith) ∙ e in
                let room : ltb (length key) key_segs ≡ true = ground arith in
                let longer : length (key ++ x ∷ []) ≡ suc (length key) =
                  omega (arith, length-append key (x ∷ [])) in
                rw more (
                  rw held (
                    rw room record {
                      whole = w;
                      keeps = λ j h. h;
                      sound = (
                        refl,
                        all,
                        rw longer (ground arith),
                        rw longer (ap (λ t. t ++ x ∷ []) prefix ∙ sym (take-suc k (length key) e)),
                      );
                      fewer = rw longer (omega arith);
                    })))
        ]
        | inr last ↦
            (let whole_key : length key ≡ length k = ground arith in
              rw last record {
                whole = w;
                keeps = λ j h. h;
                sound = ap ok (prefix ∙ ap (λ n. take n k) whole_key ∙ take_all k);
                fewer = omega arith;
              })
      ]

  loading-AdvancesTo :
      (cache : Cache)
      → IsWhole cache
      → 0 < length k
      → AdvancesTo cache before_load (step c (ok k) cache before_load)
  unfolding step translated
  loading-AdvancesTo cache w nonempty = elim w.published [
    | inl empty ↦
        (let zero_len : ltb 0 cache.len ≡ false = ground arith in
          rw zero_len record {
            whole = w;
            keeps = λ j h. h;
            sound = (refl, omega arith, λ j h. absurd (omega arith));
            fewer = omega arith;
          })
    | inr (len, all) ↦
        (let full : ltb 0 cache.len ≡ true = ground arith in
          rw full record {
            whole = w;
            keeps = λ j h. h;
            sound = (len, all, omega arith, refl);
            fewer = omega arith;
          })
  ]

  finished-AdvancesTo :
      (cache : Cache) (r : Outcome Key)
      → IsWhole cache
      → r ≡ ok k
      → AdvancesTo cache (finished r) (step c (ok k) cache (finished r))
  unfolding step
  finished-AdvancesTo cache r w h = record {
    whole = w;
    keeps = λ j h'. h';
    sound = h;
    fewer = omega arith;
  }

  pub step-AdvancesTo :
      (cache : Cache) (phase : Phase)
      → 0 < length k
      → length k ≤ key_segs
      → IsWhole cache
      → IsSoundAt cache phase
      → AdvancesTo cache phase (step c (ok k) cache phase)
  step-AdvancesTo cache before_load nonempty fits w h = loading-AdvancesTo cache w nonempty
  step-AdvancesTo cache (storing k' i) nonempty fits w (same, bound, stored) =
      rw same (storing-AdvancesTo (ok k) cache i fits w bound stored)
  step-AdvancesTo cache (reading len key) nonempty fits w (same, all, bound, prefix) =
      rw same (reading-AdvancesTo (ok k) cache key fits w all bound prefix)
  step-AdvancesTo cache (finished r) nonempty fits w h = finished-AdvancesTo cache r w h
