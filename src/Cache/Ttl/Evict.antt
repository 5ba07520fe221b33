-- ===== src/Cache/Ttl/Evict.antt =====
-- What the eviction of the result cache leaves, and whom it chooses.
use linkedin_api.Base.{
  ℕ, ◌≤◌, ◌<◌, ◌≡◌, refl, sym, subst, ◌⊎◌, inl, inr, Bool, false, not, ◌||◌, Option, none, some, [],
  ◌∷◌, arith, ltb, Bool-cases, length, is_nil, Text, text_eq, text_eq_iff, text_eq_refl,
}
use linkedin_api.Base.Dict.{
  Dict, get, get-delete, length-delete-lt, Fresh, Distinct, select, passing, delete-Distinct,
  select-Distinct, get-select, length-select-le,
}
use linkedin_api.Base.Dict.{get-Fresh, Fresh-select}
use linkedin_api.Cache.Ttl.{Item, has_expired, evict_loop, evict}

module _ {R : Type 0} where
  -- No key is empty.
  abbrev pub Named : Dict (Item R) → Type 0
  Named [] = Unit {0}
  Named ((k, e) ∷ m) = (is_nil k ≡ false) × Named m

  abbrev pub fresh_at : ℕ → Item R → Bool
  fresh_at now e = not (has_expired now e)

  -- No entry expires before `at`.
  abbrev NotBefore : ℕ → Dict (Item R) → Type 0
  NotBefore at [] = Unit {0}
  NotBefore at ((k, e) ∷ m) = (at ≤ e.expires_at) × NotBefore at m

  pub evict_loop_left :
      (now : ℕ) (m : Dict (Item R)) (sk : Text) (st : ℕ)
      → (evict_loop now m sk st).0 ≡ select (fresh_at now) m
  unfolding evict_loop select
  evict_loop_left now [] sk st = refl
  evict_loop_left now ((k, e) ∷ m) sk st =
      ground (arith, evict_loop_left now m sk st, evict_loop_left now m k e.expires_at)

  -- Once a key is chosen the loop moves only to sooner ones.
  evict_loop_sooner :
      (now : ℕ) (m : Dict (Item R)) (sk : Text) (st : ℕ)
      → Named m
      → is_nil sk ≡ false
      → (is_nil (evict_loop now m sk st).1 ≡ false) × ((evict_loop now m sk st).2 ≤ st)
  unfolding evict_loop
  evict_loop_sooner now [] sk st n h = (h, omega arith)
  evict_loop_sooner now ((k, e) ∷ m) sk st n h =
      ground (arith, evict_loop_sooner now m sk st n.1, evict_loop_sooner now m k e.expires_at n.1)

  evict_loop_min :
      (now : ℕ) (m : Dict (Item R)) (sk : Text) (st : ℕ)
      → Named m
      → NotBefore (evict_loop now m sk st).2 (evict_loop now m sk st).0
  unfolding evict_loop
  evict_loop_min now [] sk st n = tt
  evict_loop_min now ((k, e) ∷ m) sk st n = ground (
    arith,
    evict_loop_min now m sk st n.1,
    evict_loop_min now m k e.expires_at n.1,
    evict_loop_sooner now m sk st n.1,
    evict_loop_sooner now m k e.expires_at n.1,
  )

  abbrev pub expiry : Option (Item R) → Option ℕ
  expiry none = none
  expiry (some e) = some e.expires_at

  -- An entry in front of a list without its key hides nothing there.
  get-cons :
      (k key : Text) (e : Item R) (m : Dict (Item R)) (at : ℕ)
      → Fresh k m
      → expiry (get key m) ≡ some at
      → expiry (get key ((k, e) ∷ m)) ≡ some at
  unfolding get
  get-cons k key e m at f h = elim (Bool-cases (text_eq k key)) [
    | inl same ↦
        let hidden = get-Fresh key m (rw ((text_eq_iff k key).0 same) at f) in
        absurd (ground (arith, hidden))
    | inr other ↦ rw other h
  ]

  -- The loop ends with the key that it was given, or with a key that it leaves, and its instant.
  abbrev Choice : Text → ℕ → Dict (Item R) × Text × ℕ → Type 0
  Choice sk st r = ((r.1 ≡ sk) × (r.2 ≡ st)) ⊎ (expiry (get r.1 r.0) ≡ some r.2)

  Choice-cons :
      (k : Text) (e : Item R) (K : Text) (T : ℕ) (r : Dict (Item R) × Text × ℕ)
      → Fresh k r.0
      → Choice K T r
      → Choice K T ((k, e) ∷ r.0, r.1, r.2)
  Choice-cons k e K T r f (inl same) = inl same
  Choice-cons k e K T r f (inr there) = inr (get-cons k r.1 e r.0 r.2 f there)

  Choice-head :
      (k : Text) (e : Item R) (sk : Text) (st : ℕ) (r : Dict (Item R) × Text × ℕ)
      → Choice k e.expires_at ((k, e) ∷ r.0, r.1, r.2)
      → Choice sk st ((k, e) ∷ r.0, r.1, r.2)
  unfolding get
  Choice-head k e sk st r (inl (same, at)) = inr (rw (same, at, text_eq_refl k) refl)
  Choice-head k e sk st r (inr there) = inr there

  evict_loop-Choice :
      (now : ℕ) (m : Dict (Item R)) (sk : Text) (st : ℕ)
      → Distinct m
      → Choice sk st (evict_loop now m sk st)
  unfolding evict_loop
  evict_loop-Choice now [] sk st d = inl (refl, refl)
  evict_loop-Choice now ((k, e) ∷ m) sk st d =
      let f = λ (K : Text). λ (T : ℕ).
        subst (Fresh k) (sym (evict_loop_left now m K T)) (Fresh-select k (fresh_at now) m d.0) in
      let same =
        Choice-cons k e sk st (evict_loop now m sk st) (f sk st)
          (evict_loop-Choice now m sk st d.1) in
      let new = Choice-head k e sk st (evict_loop now m k e.expires_at) (
        Choice-cons k e k e.expires_at (evict_loop now m k e.expires_at) (f k e.expires_at)
          (evict_loop-Choice now m k e.expires_at d.1)) in
      elim (Bool-cases (has_expired now e)) [
        | inl gone ↦ rw (gone, evict_loop) (evict_loop-Choice now m sk st d.1)
        | inr here ↦ elim (Bool-cases (is_nil sk || ltb e.expires_at st)) [
          | inl sooner ↦ rw (here, evict_loop) (rw sooner new)
          | inr later ↦ rw (here, evict_loop) (rw later same)
        ]
      ]

  evict_loop-Named :
      (now : ℕ) (m : Dict (Item R)) (sk : Text) (st : ℕ)
      → Named m
      → ((evict_loop now m sk st).0 ≡ []) ⊎ (is_nil (evict_loop now m sk st).1 ≡ false)
  unfolding evict_loop
  evict_loop-Named now [] sk st n = inl refl
  evict_loop-Named now ((k, e) ∷ m) sk st n = ground (
    arith,
    evict_loop-Named now m sk st n.1,
    evict_loop_sooner now m sk st n.1,
    evict_loop_sooner now m k e.expires_at n.1,
  )

  at_or_after :
      (at : ℕ) (m : Dict (Item R)) (j : Text) (v : Item R)
      → NotBefore at m
      → get j m ≡ some v
      → at ≤ v.expires_at
  unfolding get
  at_or_after at [] j v n h = cc
  at_or_after at ((k, e) ∷ m) j v n h = ground (arith, at_or_after at m j v n.1)

  -- The chosen key stands in what the loop leaves, unless it leaves nothing.
  chosen_there :
      (now : ℕ) (m : Dict (Item R))
      → Named m
      → Distinct m
      → let r = evict_loop now m [] 0 in
        (r.0 ≡ []) ⊎ ((is_nil r.1 ≡ false) × (expiry (get r.1 r.0) ≡ some r.2))
  chosen_there now m n d =
      ground (arith, evict_loop-Named now m [] 0 n, evict_loop-Choice now m [] 0 d)

  pub length-evict :
      (max now : ℕ) (m : Dict (Item R))
      → Named m
      → Distinct m
      → length m ≤ max
      → 0 < max
      → length (evict max now m) < max
  unfolding evict
  length-evict max now m n d h p =
      let r = evict_loop now m [] 0 in
      let shorter : length r.0 ≤ length m =
        rw (evict_loop_left now m [] 0) (length-select-le (fresh_at now) m) in
      ground (arith, shorter, chosen_there now m n d, length-delete-lt r.1 r.0)

  pub evict-Distinct : (max now : ℕ) (m : Dict (Item R)) → Distinct m → Distinct (evict max now m)
  unfolding evict
  evict-Distinct max now m d =
      let r = evict_loop now m [] 0 in
      let left : Distinct r.0 =
        rw (evict_loop_left now m [] 0) (select-Distinct (fresh_at now) m d) in
      ground (arith, left, delete-Distinct r.1 r.0 left)

  -- What the eviction leaves was there, and has not expired.
  pub get-evict :
      (max now : ℕ) (m : Dict (Item R)) (j : Text) (v : Item R)
      → Distinct m
      → get j (evict max now m) ≡ some v
      → (get j m ≡ some v) × (has_expired now v ≡ false)
  unfolding evict
  get-evict max now m j v d h =
      let r = evict_loop now m [] 0 in
      let left : get j r.0 ≡ passing (fresh_at now) (get j m) =
        rw (evict_loop_left now m [] 0) (get-select (fresh_at now) j m d) in
      ground (arith, left, get-delete r.1 j r.0)

  get-nil : (k : Text) → get {V = Item R} k [] ≡ none
  unfolding get
  get-nil k = refl

  -- In a map with distinct keys that are not empty, an unexpired entry that the eviction takes
  -- expires no later than any entry that it leaves.
  pub evict_soonest :
      (max now : ℕ) (m : Dict (Item R)) (k j : Text) (w v : Item R)
      → Named m
      → Distinct m
      → get k m ≡ some w
      → has_expired now w ≡ false
      → get k (evict max now m) ≡ none
      → get j (evict max now m) ≡ some v
      → w.expires_at ≤ v.expires_at
  unfolding evict
  evict_soonest max now m k j w v n d gk u gone stays =
      let r = evict_loop now m [] 0 in
      let left : get k r.0 ≡ passing (fresh_at now) (get k m) =
        rw (evict_loop_left now m [] 0) (get-select (fresh_at now) k m d) in
      ground (
        arith,
        left,
        chosen_there now m n d,
        get-delete r.1 k r.0,
        get-delete r.1 j r.0,
        get-nil k,
        text_eq_iff r.1 k,
        at_or_after r.2 r.0 j v (evict_loop_min now m [] 0 n),
      )
