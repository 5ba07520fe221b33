-- ===== src/Api/RateLimit.antt =====
-- internal/api/ratelimit.go. The token bucket of golang.org/x/time/rate is a parameter: a state, the
-- new one, and `Allow`. `pick` says which bucket the range over a full map meets first. A bucket is
-- shared by pointer in the source; here the state after `Allow` is written back.
use linkedin_api.Base.{
  ℕ, ◌-◌, ◌≤◌, ◌<◌, ◌≡◌, inl, inr, Bool, true, false, Option, none, some, List, [], ◌∷◌, arith, leb,
  if◌then◌else◌, Bool-cases, Option-cases, is_some, length, is_nil, Text, codes, text_eq,
}
use linkedin_api.Base.Dict.{
  Dict, get, put, get-put, get-put_self, length-put, Distinct, select, put-Distinct,
  select-Distinct, get-select, length-select-le, delete_first, length-delete_first,
  delete_first-Distinct, get-delete_first,
}
use linkedin_api.Domain.Errors.{Error, rate_limited}

abbrev pub rate_limiter_max_keys : ℕ
rate_limiter_max_keys = 10000

-- Ten minutes in nanoseconds.
abbrev pub rate_limiter_idle_ttl : ℕ
rate_limiter_idle_ttl = 600_000_000_000

pub record Bucket (L : Type 0) : Type 0 where
  pub limiter : L
  pub last_seen : ℕ

-- The bucket map; `rps` and `burst` live in the parameter `fresh`.
abbrev pub Buckets : Type 0 → Type 0
Buckets L = Dict (Bucket L)

module _ {L : Type 0} where
  -- b.lastSeen.Before(cutoff); an instant less than ten minutes after the epoch has no cutoff.
  abbrev pub is_recent : ℕ → Bucket L → Bool
  is_recent now b = leb (now - rate_limiter_idle_ttl) b.last_seen

  unfoldable pub evict : ℕ → ℕ → Buckets L → Buckets L
  evict pick now m =
      let live = select (is_recent now) m in
      if leb rate_limiter_max_keys (length live) then delete_first pick live else live

  unfoldable pub make_room : ℕ → ℕ → Buckets L → Buckets L
  make_room pick now m = if leb rate_limiter_max_keys (length m) then evict pick now m else m

  module _ (fresh : L) (allow : L → ℕ → Bool × L) where
    -- limiterFor: the limiter, and the map that holds it.
    unfoldable pub limiter_for : Buckets L → Text → ℕ → ℕ → L × Buckets L
    limiter_for m key pick now = elim (get key m) [
      | some b ↦ (b.limiter, put key (record b { last_seen = now }) m)
      | none ↦ (fresh, put key (record { limiter = fresh; last_seen = now }) (make_room pick now m))
    ]

    -- The middleware: `none` hands the request on.
    unfoldable pub admit : Buckets L → Text → ℕ → ℕ → Option Error × Buckets L
    admit m key pick now =
        if is_nil key
        then (none, m)
        else let (l, m') = limiter_for m key pick now in
          let (allowed, l') = allow l now in
          (
            (if allowed
                then none
                else some (rate_limited (codes "rate limit exceeded, please slow down") 1)),
            put key (record { limiter = l'; last_seen = now }) m',
          )

    -- Requests in the order in which they take the lock.
    unfoldable pub run : Buckets L → List (Text × ℕ × ℕ) → Buckets L
    run m [] = m
    run m ((key, pick, now) ∷ rs) = run (admit m key pick now).1 rs

  pub record Inv (m : Buckets L) : Type 0 where
    pub bounded : length m ≤ rate_limiter_max_keys
    pub distinct : Distinct m

  evict-Inv :
      (pick now : ℕ) (m : Buckets L)
      → Inv m
      → (length (evict pick now m) < rate_limiter_max_keys) × Distinct (evict pick now m)
  unfolding evict
  evict-Inv pick now m h =
      let s = select-Distinct (is_recent now) m h.distinct in
      ground (
        arith,
        s,
        length-select-le (is_recent now) m,
        length-delete_first pick (select (is_recent now) m),
        delete_first-Distinct pick (select (is_recent now) m) s,
      )

  make_room-Inv :
      (pick now : ℕ) (m : Buckets L)
      → Inv m
      → (length (make_room pick now m) < rate_limiter_max_keys) × Distinct (make_room pick now m)
  unfolding make_room
  make_room-Inv pick now m h = ground (arith, evict-Inv pick now m h, h.distinct, h.bounded)

  get-make_room :
      (pick now : ℕ) (m : Buckets L) (j : Text) (b : Bucket L)
      → Distinct m
      → get j (make_room pick now m) ≡ some b
      → get j m ≡ some b
  unfolding make_room evict
  get-make_room pick now m j b d h = ground (
    arith,
    get-select (is_recent now) j m d,
    get-delete_first pick j (select (is_recent now) m) b,
  )

  put-old-Inv :
      (key : Text) (b : Bucket L) (m : Buckets L)
      → is_some (get key m) ≡ true
      → Inv m
      → Inv (put key b m)
  put-old-Inv key b m old h = record {
    bounded = ground (arith, length-put key b m);
    distinct = put-Distinct key b m h.distinct;
  }

  module _ (fresh : L) (allow : L → ℕ → Bool × L) where
    limiter_for-Inv :
        (m : Buckets L) (key : Text) (pick now : ℕ)
        → Inv m
        → let m' = (limiter_for fresh allow m key pick now).1 in
          Inv m' × (is_some (get key m') ≡ true)
    unfolding limiter_for
    limiter_for-Inv m key pick now h = elim (Option-cases (get key m)) [
      | inr (b, e) ↦
          rw (e, limiter_for)
            (
              put-old-Inv key (record b { last_seen = now }) m (rw e) h,
              rw (get-put_self key (record b { last_seen = now }) m),
            )
      | inl e ↦
          let b : Bucket L = record { limiter = fresh; last_seen = now } in
          let r = make_room-Inv pick now m h in
          rw (e, limiter_for)
            (
              record {
                bounded = ground (arith, length-put key b (make_room pick now m), r.0);
                distinct = put-Distinct key b (make_room pick now m) r.1;
              },
              rw (get-put_self key b (make_room pick now m)),
            )
    ]

    admit-Inv :
        (m : Buckets L) (key : Text) (pick now : ℕ)
        → Inv m
        → Inv (admit fresh allow m key pick now).1
    unfolding admit
    admit-Inv m key pick now h = elim (Bool-cases (is_nil key)) [
      | inl e ↦ rw (e, admit) h
      | inr e ↦
          let (i, old) = limiter_for-Inv m key pick now h in
          rw (e, admit) (put-old-Inv key _ _ old i)
    ]

    -- Whatever the requests, keys, instants and evictions, a bucket map with at most 10000 buckets
    -- and distinct keys keeps both.
    pub run-Inv : (m : Buckets L) (rs : List (Text × ℕ × ℕ)) → Inv m → Inv (run fresh allow m rs)
    unfolding run
    run-Inv m [] h = h
    run-Inv m ((key, pick, now) ∷ rs) h =
        run-Inv (admit fresh allow m key pick now).1 rs (admit-Inv m key pick now h)

    same_limiter :
        (m n : Buckets L) (key : Text) (pick now : ℕ)
        → get key m ≡ get key n
        → (limiter_for fresh allow m key pick now).0 ≡ (limiter_for fresh allow n key pick now).0
    unfolding limiter_for
    same_limiter m n key pick now same = ground arith

    other_bucket :
        (m : Buckets L) (key other : Text) (pick now : ℕ) (b : Bucket L)
        → Distinct m
        → text_eq key other ≡ false
        → get other (limiter_for fresh allow m key pick now).1 ≡ some b
        → get other m ≡ some b
    unfolding limiter_for
    other_bucket m key other pick now b d ne h = elim (Option-cases (get key m)) [
      | inr (x, e) ↦
          let h' = rw (e, limiter_for) at h in
          ground (arith, h', get-put key other (record x { last_seen = now }) m)
      | inl e ↦
          let h' = rw (e, limiter_for) at h in
          let x : Bucket L = record { limiter = fresh; last_seen = now } in
          get-make_room pick now m other b d
            (ground (arith, h', get-put key other x (make_room pick now m)))
    ]

    -- The answer to a request depends on its own key's bucket alone, and the request leaves every
    -- other bucket that is kept as it was (in a map with distinct keys).
    pub admit_apart :
        (m n : Buckets L) (key other : Text) (pick now : ℕ) (b : Bucket L)
        → Distinct m
        → text_eq key other ≡ false
        → get key m ≡ get key n
        → ((admit fresh allow m key pick now).0 ≡ (admit fresh allow n key pick now).0)
          × (get other (admit fresh allow m key pick now).1 ≡ some b → get other m ≡ some b)
    unfolding admit
    admit_apart m n key other pick now b d ne same =
        let l = same_limiter m n key pick now same in
        let r = limiter_for fresh allow m key pick now in
        let x : Bucket L = record { limiter = (allow r.0 now).1; last_seen = now } in
        (
          ground (arith, l),
          λ h. ground (arith, h, get-put key other x r.1, other_bucket m key other pick now b d ne),
        )
