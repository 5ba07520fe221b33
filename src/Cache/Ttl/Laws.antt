-- ===== src/Cache/Ttl/Laws.antt =====
-- What a client of the result cache may rely on.
use linkedin_api.Base.{
  ℕ, ◌≤◌, ◌<◌, ◌≡◌, refl, ◌⊎◌, inl, inr, Bool, true, false, none, some, List, [], ◌∷◌, arith, ltb,
  if◌then◌else◌, Option-cases, is_some, length, is_nil, All, Text, text_eq, text_eq_iff,
}
use linkedin_api.Base.Duration.{add_duration}
use linkedin_api.Base.Dict.{
  Dict, get, put, delete, get-put, get-delete, get-put_self, length-put, length-delete-le, Distinct,
  select, put-Distinct, delete-Distinct,
}
use linkedin_api.Cache.Ttl.Evict.{
  Named, fresh_at, evict_loop_left, length-evict, evict-Distinct, get-evict,
}
use linkedin_api.Cache.Ttl.{
  Item, TtlCache, new_ttl, read, drop_expired, evict_loop, evict, make_room, set,
}

module _ {R : Type 0} where
  Named-put :
      (k : Text) (e : Item R) (m : Dict (Item R)) → is_nil k ≡ false → Named m → Named (put k e m)
  unfolding put
  Named-put k e [] h n = (h, tt)
  Named-put k e ((j, w) ∷ m) h n = ground (arith, Named-put k e m h n.1)

  Named-delete : (k : Text) (m : Dict (Item R)) → Named m → Named (delete k m)
  unfolding delete
  Named-delete k [] n = tt
  Named-delete k ((j, w) ∷ m) n = ground (arith, Named-delete k m n.1)

  Named-select : (p : Item R → Bool) (m : Dict (Item R)) → Named m → Named (select p m)
  unfolding select
  Named-select p [] n = tt
  Named-select p ((j, w) ∷ m) n = ground (arith, Named-select p m n.1)

  Named-evict : (max now : ℕ) (m : Dict (Item R)) → Named m → Named (evict max now m)
  unfolding evict
  Named-evict max now m n =
      let r = evict_loop now m [] 0 in
      let left : Named r.0 = rw (evict_loop_left now m [] 0) (Named-select (fresh_at now) m n) in
      ground (arith, left, Named-delete r.1 r.0 left)

  -- At most `max` entries, each under a key of its own that is not empty.
  pub record IsValid (max : ℕ) (c : TtlCache R) : Type 0 where
    pub same_max : c.max_entries ≡ max
    pub bounded : length c.entries ≤ max
    pub distinct : Distinct c.entries
    pub named : Named c.entries

  module _ (max now : ℕ) (k : Text) (m : Dict (Item R)) where
    make_room-Distinct : Distinct m → Distinct (make_room max now k m)
    unfolding make_room
    make_room-Distinct d = ground (arith, evict-Distinct max now m d)

    make_room-Named : Named m → Named (make_room max now k m)
    unfolding make_room
    make_room-Named n = ground (arith, Named-evict max now m n)

    length-make_room :
        Named m
        → Distinct m
        → length m ≤ max
        → 0 < max
        → (length (make_room max now k m) < max)
          ⊎ ((make_room max now k m ≡ m) × (is_some (get k m) ≡ true))
    unfolding make_room
    length-make_room n d h p = ground (arith, length-evict max now m n d h p)

    length-put-make_room :
        (e : Item R)
        → Named m
        → Distinct m
        → length m ≤ max
        → 0 < max
        → length (put k e (make_room max now k m)) ≤ max
    length-put-make_room e n d h p = elim (length-make_room n d h p) [
      | inl lt ↦ ground (arith, length-put k e (make_room max now k m))
      | inr (same, old) ↦ rw same (ground (arith, length-put k e m))
    ]

    get-make_room :
        (j : Text) (v : Item R)
        → Distinct m
        → get j (make_room max now k m) ≡ some v
        → get j m ≡ some v
    unfolding make_room
    get-make_room j v d h = ground (arith, get-evict max now m j v d)

  set-IsValid :
      (max : ℕ) (c : TtlCache R) (key : Text) (result : R) (then_ now : ℕ)
      → 0 < max
      → is_nil key ≡ false
      → IsValid max c
      → IsValid max (set c key result then_ now)
  unfolding set
  set-IsValid max c key result then_ now p nn v =
      let e : Item R = record { result = result; expires_at = add_duration now c.ttl } in
      let d = make_room-Distinct max then_ key c.entries v.distinct in
      let n = make_room-Named max then_ key c.entries v.named in
      record {
        same_max = v.same_max;
        bounded =
            rw v.same_max
              (length-put-make_room max then_ key c.entries e v.named v.distinct v.bounded p);
        distinct = rw v.same_max (put-Distinct key e _ d);
        named = rw v.same_max (Named-put key e _ nn n);
      }

  drop_expired-IsValid :
      (max : ℕ) (c : TtlCache R) (key : Text) (now : ℕ)
      → IsValid max c
      → IsValid max (drop_expired c key now)
  unfolding drop_expired
  drop_expired-IsValid max c key now v = ground (
    arith,
    length-delete-le key c.entries,
    delete-Distinct key c.entries v.distinct,
    Named-delete key c.entries v.named,
  )

-- The steps that goroutines interleave: a read changes nothing.
pub data Step (R : Type 0) : Type 0 where
  reads : Text → ℕ → Step R
  drops : Text → ℕ → Step R
  sets : Text → R → ℕ → ℕ → Step R

abbrev pub HasKey : {R : Type 0} → Step R → Type 0
HasKey (sets key r then_ now) = is_nil key ≡ false
HasKey _ = Unit {0}

module _ {R : Type 0} where
  pub step : TtlCache R → Step R → TtlCache R
  step c (reads key now) = c
  step c (drops key now) = drop_expired c key now
  step c (sets key r then_ now) = set c key r then_ now

  pub run : TtlCache R → List (Step R) → TtlCache R
  run c [] = c
  run c (s ∷ ss) = run (step c s) ss

  step-IsValid :
      (max : ℕ) (c : TtlCache R) (s : Step R)
      → 0 < max
      → HasKey s
      → IsValid max c
      → IsValid max (step c s)
  unfolding step
  step-IsValid max c (reads key now) p h v = v
  step-IsValid max c (drops key now) p h v = drop_expired-IsValid max c key now v
  step-IsValid max c (sets key r then_ now) p h v = set-IsValid max c key r then_ now p h v

  run-IsValid :
      (max : ℕ) (c : TtlCache R) (ss : List (Step R))
      → 0 < max
      → All HasKey ss
      → IsValid max c
      → IsValid max (run c ss)
  unfolding run
  run-IsValid max c [] p h v = v
  run-IsValid max c (s ∷ ss) p h v =
      run-IsValid max (step c s) ss p h.1 (step-IsValid max c s p h.0 v)

  -- A new result cache with a positive cap never holds more entries than the cap, each under a key
  -- of its own that is not empty, after any interleaving of reads, deletions of expired entries,
  -- and writes under keys that are not empty.
  pub run-new_ttl-IsValid :
      (ttl max : ℕ) (ss : List (Step R))
      → 0 < max
      → All HasKey ss
      → IsValid max (run (new_ttl ttl max) ss)
  unfolding new_ttl
  run-new_ttl-IsValid ttl max ss p h =
      run-IsValid max (record { entries = []; ttl = ttl; max_entries = max }) ss p h
        (record { same_max = refl; bounded = omega arith; distinct = tt; named = tt })

  -- A result that was written is read back exactly until its time to live has passed.
  pub read-set_self :
      (c : TtlCache R) (key : Text) (result : R) (then_ now later : ℕ)
      → (read (set c key result then_ now) key later).0
        ≡ (if ltb (add_duration now c.ttl) later then none else some result)
  unfolding read set
  read-set_self c key result then_ now later = ground (
    arith,
    get-put_self key (record { result = result; expires_at = add_duration now c.ttl })
        (make_room c.max_entries then_ key c.entries),
  )

  -- In a cache with distinct keys, what is read under another key after a write was read there
  -- before the write.
  pub read-set_other :
      (c : TtlCache R) (key other : Text) (result r : R) (then_ now later : ℕ)
      → Distinct c.entries
      → text_eq key other ≡ false
      → (read (set c key result then_ now) other later).0 ≡ some r
      → (read c other later).0 ≡ some r
  unfolding read set
  read-set_other c key other result r then_ now later d ne h =
      let e : Item R = record { result = result; expires_at = add_duration now c.ttl } in
      let m = make_room c.max_entries then_ key c.entries in
      elim (Option-cases (get other m)) [
        | inl missing ↦ ground (arith, get-put key other e m)
        | inr (x, found) ↦ ground (
          arith,
          get-put key other e m,
          get-make_room c.max_entries then_ key c.entries other x d found,
        )
      ]

  -- The second section of `Get` takes no entry that has not expired, whatever ran in between.
  pub read-drop_expired :
      (c : TtlCache R) (key other : Text) (now later : ℕ)
      → now ≤ later
      → (read (drop_expired c key now) other later).0 ≡ (read c other later).0
  unfolding read drop_expired
  read-drop_expired c key other now later h =
      ground (arith, get-delete key other c.entries, text_eq_iff key other)
