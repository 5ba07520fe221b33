-- ===== src/Service/CallerHealth.antt =====
-- internal/service/callerhealth.go. `pick` says which entry the range over a full map meets first.
use linkedin_api.Base.{
  ℕ, ◌≡◌, refl, inl, inr, Bool, true, false, not, ◌||◌, List, [], ◌∷◌, arith, ltb, leb, ◌==◌,
  if◌then◌else◌, Bool-cases, length, is_nil, Text, text_eq,
}
use linkedin_api.Base.Duration.{add_duration, two_63}
use linkedin_api.Base.Dict.{Dict, delete, Distinct}
use linkedin_api.Base.Expiry.{
  check, mark, Inv, check-Inv, delete-Inv, mark-Inv, check-mark_self, check-mark_other,
  check-delete_other, check-delete_self,
}

pub record CallerHealth : Type 0 where
  pub ttl : ℕ
  pub max : ℕ
  pub entries : Dict ℕ

abbrev pub caller_health_max_entries : ℕ
caller_health_max_entries = 4096

abbrev pub five_minutes : ℕ
five_minutes = 300_000_000_000

-- The duration zero is not positive either; `two_63` and above are the negative ones.
unfoldable pub new_caller_health : ℕ → CallerHealth
new_caller_health ttl = record {
  ttl = if ttl == 0 || leb two_63 ttl then five_minutes else ttl;
  max = caller_health_max_entries;
  entries = [];
}

unfoldable pub unhealthy : CallerHealth → Text → ℕ → Bool × CallerHealth
unhealthy h fp now =
    if is_nil fp
    then (false, h)
    else let (found, m) = check now fp h.entries in (found, record h { entries = m })

unfoldable pub mark_unhealthy : CallerHealth → Text → ℕ → ℕ → ℕ → CallerHealth
mark_unhealthy h fp pick then_ now =
    if is_nil fp then h else record h { entries = mark h.max h.ttl pick then_ now fp h.entries }

unfoldable pub clear : CallerHealth → Text → CallerHealth
clear h fp = if is_nil fp then h else record h { entries = delete fp h.entries }

unfoldable pub tracked : CallerHealth → ℕ
tracked h = length h.entries

pub data Call : Type 0 where
  asks : Text → ℕ → Call
  marks : Text → ℕ → ℕ → ℕ → Call
  clears : Text → Call

pub step : CallerHealth → Call → CallerHealth
step h (asks fp now) = (unhealthy h fp now).1
step h (marks fp pick then_ now) = mark_unhealthy h fp pick then_ now
step h (clears fp) = clear h fp

pub run : CallerHealth → List Call → CallerHealth
run h [] = h
run h (c ∷ cs) = run (step h c) cs

pub record IsValid (h : CallerHealth) : Type 0 where
  pub same_cap : h.max ≡ caller_health_max_entries
  pub inv : Inv caller_health_max_entries h.entries

pub unhealthy-IsValid :
    (h : CallerHealth) (fp : Text) (now : ℕ) → IsValid h → IsValid (unhealthy h fp now).1
unfolding unhealthy
unhealthy-IsValid h fp now v =
    ground (arith, check-Inv caller_health_max_entries now fp h.entries v.inv)

pub mark_unhealthy-IsValid :
    (h : CallerHealth) (fp : Text) (pick then_ now : ℕ)
    → IsValid h
    → IsValid (mark_unhealthy h fp pick then_ now)
unfolding mark_unhealthy
mark_unhealthy-IsValid h fp pick then_ now v = elim (Bool-cases (is_nil fp)) [
  | inl e ↦ rw e v
  | inr e ↦ rw e (record {
    same_cap = v.same_cap;
    inv =
        rw v.same_cap (
          mark-Inv caller_health_max_entries h.ttl pick then_ now fp h.entries (omega arith) v.inv);
  })
]

pub clear-IsValid : (h : CallerHealth) (fp : Text) → IsValid h → IsValid (clear h fp)
unfolding clear
clear-IsValid h fp v = ground (arith, delete-Inv caller_health_max_entries fp h.entries v.inv)

step-IsValid : (h : CallerHealth) (c : Call) → IsValid h → IsValid (step h c)
unfolding step
step-IsValid h (asks fp now) v = unhealthy-IsValid h fp now v
step-IsValid h (marks fp pick then_ now) v = mark_unhealthy-IsValid h fp pick then_ now v
step-IsValid h (clears fp) v = clear-IsValid h fp v

run-IsValid : (h : CallerHealth) (cs : List Call) → IsValid h → IsValid (run h cs)
unfolding run
run-IsValid h [] v = v
run-IsValid h (c ∷ cs) v = run-IsValid (step h c) cs (step-IsValid h c v)

-- From a new tracker, after any calls, at most 4096 fingerprints are tracked, each once.
pub run-new_caller_health-IsValid :
    (ttl : ℕ) (cs : List Call) → IsValid (run (new_caller_health ttl) cs)
unfolding new_caller_health
run-new_caller_health-IsValid ttl cs =
    run-IsValid _ cs
      (record { same_cap = refl; inv = record { bounded = omega arith; distinct = tt } })

-- In a tracker with distinct keys, a marked caller session with a fingerprint is unhealthy exactly
-- until the retention window has passed, and not once it is cleared; neither marking nor clearing
-- it makes another fingerprint unhealthy.
pub unhealthy-mark_unhealthy :
    (h : CallerHealth) (fp other : Text) (pick then_ now later : ℕ)
    → Distinct h.entries
    → is_nil fp ≡ false
    → text_eq fp other ≡ false
    → let h' = mark_unhealthy h fp pick then_ now in
      ((unhealthy h' fp later).0 ≡ not (ltb (add_duration now h.ttl) later))
      × ((unhealthy (clear h' fp) fp later).0 ≡ false)
      × ((unhealthy h' other later).0 ≡ true → (unhealthy h other later).0 ≡ true)
      × ((unhealthy (clear h fp) other later).0 ≡ (unhealthy h other later).0)
unfolding unhealthy mark_unhealthy clear
unhealthy-mark_unhealthy h fp other pick then_ now later d nn ne =
    let other_marked = check-mark_other h.max h.ttl pick then_ now later fp h.entries other d ne in
    let kept = check-delete_other later fp other h.entries ne in
    (
      rw nn (check-mark_self h.max h.ttl pick then_ now later fp h.entries),
      rw nn (check-delete_self later fp (mark h.max h.ttl pick then_ now fp h.entries)),
      rw nn (ground (arith, other_marked)),
      rw nn (ground (arith, kept)),
    )
