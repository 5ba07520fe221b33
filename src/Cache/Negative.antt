-- ===== src/Cache/Negative.antt =====
-- internal/cache/negative.go. `pick` says which entry the range over a full map meets first.
use linkedin_api.Base.{
  ℕ, ◌<◌, ◌≡◌, refl, Bool, true, false, not, List, [], ◌∷◌, arith, ltb, Text, text_eq,
}
use linkedin_api.Base.Duration.{add_duration}
use linkedin_api.Base.Dict.{Dict, Distinct}
use linkedin_api.Base.Expiry.{
  check, mark, Inv, check-mark_self, check-mark_other, check-Inv, mark-Inv,
}

pub record NegativeTtl : Type 0 where
  pub entries : Dict ℕ
  pub ttl : ℕ
  pub max : ℕ

pub new_negative : ℕ → ℕ → NegativeTtl
new_negative ttl max = record { entries = []; ttl = ttl; max = max }

unfoldable pub is_blocked : NegativeTtl → Text → ℕ → Bool × NegativeTtl
is_blocked n key now = let (found, m) = check now key n.entries in (found, record n { entries = m })

-- `then_` and `now` are the two readings of the clock.
unfoldable pub remember : NegativeTtl → Text → ℕ → ℕ → ℕ → NegativeTtl
remember n key pick then_ now = record n { entries = mark n.max n.ttl pick then_ now key n.entries }

pub data Call : Type 0 where
  blocks : Text → ℕ → Call
  remembers : Text → ℕ → ℕ → ℕ → Call

pub step : NegativeTtl → Call → NegativeTtl
step n (blocks key now) = (is_blocked n key now).1
step n (remembers key pick then_ now) = remember n key pick then_ now

pub run : NegativeTtl → List Call → NegativeTtl
run n [] = n
run n (c ∷ cs) = run (step n c) cs

pub record IsValid (cap : ℕ) (n : NegativeTtl) : Type 0 where
  pub same_cap : n.max ≡ cap
  pub inv : Inv cap n.entries

step-IsValid :
    (cap : ℕ) (n : NegativeTtl) (c : Call) → 0 < cap → IsValid cap n → IsValid cap (step n c)
unfolding step is_blocked remember
step-IsValid cap n (blocks key now) p h = record {
  same_cap = h.same_cap;
  inv = check-Inv cap now key n.entries h.inv;
}
step-IsValid cap n (remembers key pick then_ now) p h = record {
  same_cap = h.same_cap;
  inv = rw h.same_cap (mark-Inv cap n.ttl pick then_ now key n.entries p h.inv);
}

run-IsValid :
    (cap : ℕ) (n : NegativeTtl) (cs : List Call) → 0 < cap → IsValid cap n → IsValid cap (run n cs)
unfolding run
run-IsValid cap n [] p h = h
run-IsValid cap n (c ∷ cs) p h = run-IsValid cap (step n c) cs p (step-IsValid cap n c p h)

-- A new negative cache with a positive cap never holds more entries than the cap, nor a key twice,
-- after any calls and whichever entries its evictions drop.
pub run-new_negative-IsValid :
    (ttl max : ℕ) (cs : List Call) → 0 < max → IsValid max (run (new_negative ttl max) cs)
unfolding new_negative
run-new_negative-IsValid ttl max cs p =
    run-IsValid max (record { entries = []; ttl = ttl; max = max }) cs p
      (record { same_cap = refl; inv = record { bounded = omega arith; distinct = tt } })

-- In a negative cache with distinct keys, a remembered key is blocked exactly until its time to
-- live has passed, and no other key becomes blocked by remembering it.
pub is_blocked-remember :
    (n : NegativeTtl) (key other : Text) (pick then_ now later : ℕ)
    → Distinct n.entries
    → text_eq key other ≡ false
    → ((is_blocked (remember n key pick then_ now) key later).0
        ≡ not (ltb (add_duration now n.ttl) later))
      × ((is_blocked (remember n key pick then_ now) other later).0 ≡ true
          → (is_blocked n other later).0 ≡ true)
unfolding is_blocked remember
is_blocked-remember n key other pick then_ now later d ne = (
  check-mark_self n.max n.ttl pick then_ now later key n.entries,
  check-mark_other n.max n.ttl pick then_ now later key n.entries other d ne,
)
