-- ===== src/Cache/Ttl.antt =====
-- internal/cache/ttl.go, over any type of results. `get` is its two critical sections: the read, and
-- the deletion under the write lock, which looks again since another goroutine may have run between.
pub mod Evict
pub mod Laws
use linkedin_api.Base.{
  ℕ, zero, suc, ◌+◌, ◌-◌, ◌*◌, ◌/◌, ◌%◌, ◌^◌, ◌≤◌, ◌<◌, ◌≡◌, refl, sym, ap, ◌∙◌, subst, fun_ext,
  ◌≢◌, ◌↔◌, ◌⊎◌, inl, inr, Bool, true, false, not, ◌&&◌, ◌||◌, Option, none, some, List, [], ◌∷◌,
  ◌++◌, map, arith, ltb, leb, ◌==◌, ==_iff, if◌then◌else◌, Bool-cases, Option-cases, is_some,
  is_none, length, length-append, is_nil, get_elem?, remove_at, length-remove_at, keep,
  length-keep-le, any, all, All, All-append, All-keep, All-remove_at, Text, codes, text_eq,
  text_eq_iff, text_eq_refl, String,
}
use linkedin_api.Base.Duration.{add_duration, two_63, add_duration_small}
use linkedin_api.Base.Dict.{
  Dict, get, put, delete, get-put, get-delete, get-put_self, length-put, length-delete-le,
  length-delete-lt, Fresh, Distinct, select, passing, put-Distinct, delete-Distinct,
  select-Distinct, get-select, length-select-le, delete_first, length-delete_first,
  delete_first-Distinct, get-delete_first,
}

pub record Item (R : Type 0) : Type 0 where
  pub result : R
  pub expires_at : ℕ

pub record TtlCache (R : Type 0) : Type 0 where
  pub entries : Dict (Item R)
  pub ttl : ℕ
  pub max_entries : ℕ

module _ {R : Type 0} where
  pub new_ttl : ℕ → ℕ → TtlCache R
  new_ttl ttl max_entries = record { entries = []; ttl = ttl; max_entries = max_entries }

  -- now.After(e.expiresAt)
  abbrev pub has_expired : ℕ → Item R → Bool
  has_expired now e = ltb e.expires_at now

  -- The read: the result, and whether an expired entry was seen.
  unfoldable pub read : TtlCache R → Text → ℕ → Option R × Bool
  read c key now = elim (get key c.entries) [
    | none ↦ (none, false)
    | some e ↦ if has_expired now e then (none, true) else (some e.result, false)
  ]

  unfoldable pub drop_expired : TtlCache R → Text → ℕ → TtlCache R
  drop_expired c key now = elim (get key c.entries) [
    | none ↦ c
    | some cur ↦ if has_expired now cur then record c { entries = delete key c.entries } else c
  ]

  -- Get with nothing between the two sections.
  unfoldable pub get_result : TtlCache R → Text → ℕ → ℕ → Option R × TtlCache R
  unfolding read drop_expired
  get_result c key now then_ =
      let (r, expired) = read c key now in (r, if expired then drop_expired c key then_ else c)

  -- The loop of `evictLocked`: what it leaves of the map, `soonestKey` and `soonest`.
  unfoldable pub evict_loop : ℕ → Dict (Item R) → Text → ℕ → Dict (Item R) × Text × ℕ
  evict_loop now [] soonest_key soonest = ([], soonest_key, soonest)
  evict_loop now ((k, e) ∷ m) soonest_key soonest =
      let expired = has_expired now e in
      let sooner = not expired && (is_nil soonest_key || ltb e.expires_at soonest) in
      let (left, key, at) =
        evict_loop now m (if sooner then k else soonest_key)
          (if sooner then e.expires_at else soonest) in
      (if expired then left else (k, e) ∷ left, key, at)

  unfoldable pub evict : ℕ → ℕ → Dict (Item R) → Dict (Item R)
  evict max now m =
      let (left, key, at) = evict_loop now m [] 0 in
      if leb max (length left) && not (is_nil key) then delete key left else left

  unfoldable pub make_room : ℕ → ℕ → Text → Dict (Item R) → Dict (Item R)
  make_room max now key m = if is_none (get key m) && leb max (length m) then evict max now m else m

  -- `then_` is the instant read by `evictLocked`, `now` the one read for the new entry.
  unfoldable pub set : TtlCache R → Text → R → ℕ → ℕ → TtlCache R
  set c key result then_ now = record c {
    entries =
        put key (record { result = result; expires_at = add_duration now c.ttl })
          (make_room c.max_entries then_ key c.entries);
  }
