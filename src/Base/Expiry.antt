-- ===== src/Base/Expiry.antt =====
-- A bounded map from keys to the instants at which they run out, the shape that the negative cache
-- and the caller-session health tracker share: `check` on a look-up, `mark` on a write, with `evict`
-- before a write at capacity.
use linkedin_api.Base.Lists.{length}
use linkedin_api.Base.Tests.{ltb, leb, if◌then◌else◌, is_some, is_none, Option-cases}
use linkedin_api.Base.Texts.{Text, text_eq, text_eq_refl}
use linkedin_api.Base.Duration.{add_duration}
use linkedin_api.Base.Dict.{
  Dict, get, put, delete, get-put, get-delete, get-put_self, length-put, length-delete-le, Distinct,
  select, passing, put-Distinct, delete-Distinct, select-Distinct, get-select, length-select-le,
  delete_first, length-delete_first, delete_first-Distinct, get-delete_first,
}
use Prim.Native.Nat.{ℕ, ◌≤◌, ◌<◌}
use mathlib.Core.Path.{◌≡◌}
use mathlib.Core.Bool.{Bool, true, false, not, ◌&&◌}
use mathlib.Core.Logic.{inl, inr, ◌⊎◌}
use mathlib.Core.Option.{none, some}
use native.Mathlib.Omega.{arith}

-- now.After(exp)
abbrev pub run_out : ℕ → ℕ → Bool
run_out now exp = ltb exp now

-- exp, ok := m[k]; an entry that has run out is deleted and counts as absent.
unfoldable pub check : ℕ → Text → Dict ℕ → Bool × Dict ℕ
check now k m = elim (get k m) [
  | none ↦ (false, m)
  | some exp ↦ if run_out now exp then (false, delete k m) else (true, m)
]

-- evictLocked: what has run out goes, then any one entry if the map is still full.
unfoldable pub evict : ℕ → ℕ → ℕ → Dict ℕ → Dict ℕ
evict max now pick m =
    let live = select (λ exp. not (run_out now exp)) m in
    if leb max (length live) then delete_first pick live else live

unfoldable pub make_room : ℕ → ℕ → ℕ → Text → Dict ℕ → Dict ℕ
make_room max now pick k m =
    if is_none (get k m) && leb max (length m) then evict max now pick m else m

-- `then_` is the instant read by `evictLocked`, `now` the one read for the new entry.
unfoldable pub mark : ℕ → ℕ → ℕ → ℕ → ℕ → Text → Dict ℕ → Dict ℕ
mark max ttl pick then_ now k m = put k (add_duration now ttl) (make_room max then_ pick k m)

-- At most `max` entries, each key once.
pub record Inv (max : ℕ) (m : Dict ℕ) : Type 0 where
  pub bounded : length m ≤ max
  pub distinct : Distinct m

pub check-Inv : (max now : ℕ) (k : Text) (m : Dict ℕ) → Inv max m → Inv max (check now k m).1
unfolding check
check-Inv max now k m h = ground (arith, length-delete-le k m, delete-Distinct k m h.distinct)

pub delete-Inv : (max : ℕ) (k : Text) (m : Dict ℕ) → Inv max m → Inv max (delete k m)
delete-Inv max k m h = record {
  bounded = omega (arith, length-delete-le k m);
  distinct = delete-Distinct k m h.distinct;
}

abbrev pub still_good : ℕ → ℕ → Bool
still_good now exp = not (run_out now exp)

module _ (max now pick : ℕ) (m : Dict ℕ) where
  evict-Distinct : Distinct m → Distinct (evict max now pick m)
  unfolding evict
  evict-Distinct d =
      let s = select-Distinct (still_good now) m d in
      ground (arith, s, delete_first-Distinct pick (select (still_good now) m) s)

  length-evict : length m ≤ max → 0 < max → length (evict max now pick m) < max
  unfolding evict
  length-evict h p = ground (
    arith,
    length-select-le (still_good now) m,
    length-delete_first pick (select (still_good now) m),
  )

  get-evict :
      (j : Text) (v : ℕ) → Distinct m → get j (evict max now pick m) ≡ some v → get j m ≡ some v
  unfolding evict
  get-evict j v d h = ground (
    arith,
    get-select (still_good now) j m d,
    get-delete_first pick j (select (still_good now) m) v,
  )

  make_room-Distinct : (k : Text) → Distinct m → Distinct (make_room max now pick k m)
  unfolding make_room
  make_room-Distinct k d = ground (arith, evict-Distinct d)

  length-make_room :
      (k : Text)
      → length m ≤ max
      → 0 < max
      → (length (make_room max now pick k m) < max)
        ⊎ ((make_room max now pick k m ≡ m) × (is_some (get k m) ≡ true))
  unfolding make_room
  length-make_room k h p = ground (arith, length-evict h p)

  get-make_room :
      (k j : Text) (v : ℕ)
      → Distinct m
      → get j (make_room max now pick k m) ≡ some v
      → get j m ≡ some v
  unfolding make_room
  get-make_room k j v d h = ground (arith, get-evict j v d)

module _ (max ttl pick then_ now : ℕ) (k : Text) (m : Dict ℕ) where
  length-mark : length m ≤ max → 0 < max → length (mark max ttl pick then_ now k m) ≤ max
  unfolding mark
  length-mark h p = elim (length-make_room max then_ pick m k h p) [
    | inl lt ↦ ground (arith, length-put k (add_duration now ttl) (make_room max then_ pick k m))
    | inr (e, old) ↦ rw e (ground (arith, length-put k (add_duration now ttl) m))
  ]

  pub mark-Inv : 0 < max → Inv max m → Inv max (mark max ttl pick then_ now k m)
  unfolding mark
  mark-Inv p h = record {
    bounded = length-mark h.bounded p;
    distinct = put-Distinct k _ _ (make_room-Distinct max then_ pick m k h.distinct);
  }

  -- A marked key has its time.
  pub get-mark_self : get k (mark max ttl pick then_ now k m) ≡ some (add_duration now ttl)
  unfolding mark
  get-mark_self = get-put_self k (add_duration now ttl) _

  -- Marking a key adds nothing under another key.
  pub get-mark_other :
      (j : Text) (v : ℕ)
      → Distinct m
      → text_eq k j ≡ false
      → get j (mark max ttl pick then_ now k m) ≡ some v
      → get j m ≡ some v
  unfolding mark
  get-mark_other j v d ne h =
      get-make_room max then_ pick m k j v d
        (ground (arith, get-put k j (add_duration now ttl) (make_room max then_ pick k m)))

-- A look-up finds exactly the keys that have not run out.
pub check_lem :
    (now : ℕ) (k : Text) (m : Dict ℕ)
    → (check now k m).0 ≡ is_some (passing (still_good now) (get k m))
unfolding check
check_lem now k m = ground arith

-- A look-up at one instant changes no look-up of another key.
pub check-check_other :
    (now later : ℕ) (k j : Text) (m : Dict ℕ)
    → text_eq k j ≡ false
    → (check later j (check now k m).1).0 ≡ (check later j m).0
unfolding check
check-check_other now later k j m ne = ground (arith, get-delete k j m)

module _ (max ttl pick then_ now later : ℕ) (k : Text) (m : Dict ℕ) where
  pub check-mark_self :
      (check later k (mark max ttl pick then_ now k m)).0 ≡ not (ltb (add_duration now ttl) later)
  check-mark_self = ground (
    arith,
    check_lem later k (mark max ttl pick then_ now k m),
    get-mark_self max ttl pick then_ now k m,
  )

  pub check-mark_other :
      (j : Text)
      → Distinct m
      → text_eq k j ≡ false
      → (check later j (mark max ttl pick then_ now k m)).0 ≡ true
      → (check later j m).0 ≡ true
  check-mark_other j d ne h =
      let found = check_lem later j (mark max ttl pick then_ now k m) in
      elim (Option-cases (get j (mark max ttl pick then_ now k m))) [
        | inl e ↦ ground (arith, found)
        | inr (v, e) ↦ ground (
          arith,
          found,
          check_lem later j m,
          get-mark_other max ttl pick then_ now k m j v d ne e,
        )
      ]

pub check-delete_other :
    (later : ℕ) (k j : Text) (m : Dict ℕ)
    → text_eq k j ≡ false
    → (check later j (delete k m)).0 ≡ (check later j m).0
unfolding check
check-delete_other later k j m ne = ground (arith, get-delete k j m)

pub check-delete_self : (later : ℕ) (k : Text) (m : Dict ℕ) → (check later k (delete k m)).0 ≡ false
unfolding check
check-delete_self later k m = ground (arith, get-delete k k m, text_eq_refl k)
