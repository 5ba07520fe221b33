-- ===== src/Audit/Writer/Purges.antt =====
-- internal/audit/writer.go: the instants that the writer gives to Purge.
use linkedin_api.Base.{
  ℕ, ◌-◌, ◌≤◌, ◌≡◌, refl, sym, subst, inl, inr, Bool, false, List, [], ◌∷◌, ◌++◌, arith, leb,
  Bool-cases, is_nil, length, All, All-append,
}
use linkedin_api.Audit.Event.{Record}
use linkedin_api.Audit.Writer.{
  WriterConfig, Writer, StoreCall, inserts, deletes, is_unset, new_writer, enqueue, flush, purge,
  add, drain, Event, records, receives, ticks, purges, closes, step, run,
}

-- The call is an Insert, or the Purge of an instant no later than another.
abbrev pub PurgesBefore : ℕ → StoreCall → Type 0
PurgesBefore since (inserts b) = Unit {0}
PurgesBefore since (deletes before) = before ≤ since

-- An event that is no purge, or one by the retention of the records before an instant.
abbrev pub RetainsFrom : ℕ → WriterConfig → Event → Type 0
RetainsFrom since cfg (purges now) = is_unset cfg.retention ≡ false → now - cfg.retention ≤ since
RetainsFrom since cfg (records rec) = Unit {0}
RetainsFrom since cfg (receives ok) = Unit {0}
RetainsFrom since cfg (ticks ok) = Unit {0}
RetainsFrom since cfg (closes ok) = Unit {0}

record Purged (since : ℕ) (cfg : WriterConfig) (w : Writer) : Type 0 where
  same : w.cfg.retention ≡ cfg.retention
  log : All (PurgesBefore since) w.log

module _ (since : ℕ) (cfg : WriterConfig) where
  flush-Purged : (ok : Bool) (w : Writer) → Purged since cfg w → Purged since cfg (flush ok w)
  unfolding flush
  flush-Purged ok w h = elim (Bool-cases (is_nil w.batch)) [
    | inl e ↦ rw e h
    | inr e ↦ rw e (record {
      same = h.same;
      log = All-append (PurgesBefore since) w.log (inserts w.batch ∷ []) h.log (tt, tt);
    })
  ]

  add-Purged :
      (ok : Bool) (rec : Record) (w : Writer) → Purged since cfg w → Purged since cfg (add ok rec w)
  unfolding add
  add-Purged ok rec w h =
      let w' = record w { batch = w.batch ++ (rec ∷ []) } in
      let kept : Purged since cfg w' = record { same = h.same; log = h.log } in
      elim (Bool-cases (leb w'.cfg.batch_size (length w'.batch))) [
        | inl e ↦ rw e (flush-Purged ok w' kept)
        | inr e ↦ rw e kept
      ]

  drain-Purged :
      (ok : Bool) (c : List Record) (w : Writer)
      → Purged since cfg w
      → Purged since cfg (drain ok c w)
  unfolding drain
  drain-Purged ok [] w h = h
  drain-Purged ok (rec ∷ c) w h =
      let shorter = record w { channel = c } in
      drain-Purged ok c (add ok rec shorter)
        (add-Purged ok rec shorter (record { same = h.same; log = h.log }))

  purge-Purged :
      (now : ℕ) (w : Writer)
      → RetainsFrom since cfg (purges now)
      → Purged since cfg w
      → Purged since cfg (purge now w)
  unfolding purge
  purge-Purged now w k h = elim (Bool-cases (is_unset w.cfg.retention)) [
    | inl e ↦ rw e h
    | inr e ↦
        let le : now - w.cfg.retention ≤ since =
          subst (λ r. is_unset r ≡ false → now - r ≤ since) (sym h.same) k e in
        rw e (record {
          same = h.same;
          log =
              All-append (PurgesBefore since) w.log (deletes (now - w.cfg.retention) ∷ []) h.log
                (le, tt);
        })
  ]

  step-Purged :
      (w : Writer) (e : Event)
      → RetainsFrom since cfg e
      → Purged since cfg w
      → Purged since cfg (step w e)
  unfolding step enqueue
  step-Purged w (records rec) k h = ground (arith, h.same, h.log)
  step-Purged w (receives ok) k h = go w.channel refl
    where
      go : (c : List Record) → w.channel ≡ c → Purged since cfg (step w (receives ok))
      go [] e =
          let q : step w (receives ok) ≡ w = ground (arith, e) in subst (Purged since cfg) (sym q) h
      go (rec ∷ c) e =
          let shorter = record w { channel = c } in
          elim (Bool-cases w.running) [
            | inl r ↦
                let q : step w (receives ok) ≡ add ok rec shorter = ground (arith, e, r) in
                subst (Purged since cfg) (sym q)
                  (add-Purged ok rec shorter (record { same = h.same; log = h.log }))
            | inr r ↦
                let q : step w (receives ok) ≡ w = ground (arith, e, r) in
                subst (Purged since cfg) (sym q) h
          ]
  step-Purged w (ticks ok) k h = elim (Bool-cases w.running) [
    | inl e ↦
        let q : step w (ticks ok) ≡ flush ok w = ground (arith, e) in
        subst (Purged since cfg) (sym q) (flush-Purged ok w h)
    | inr e ↦
        let q : step w (ticks ok) ≡ w = ground (arith, e) in subst (Purged since cfg) (sym q) h
  ]
  step-Purged w (purges now) k h = elim (Bool-cases w.running) [
    | inl e ↦
        let q : step w (purges now) ≡ purge now w = ground (arith, e) in
        subst (Purged since cfg) (sym q) (purge-Purged now w k h)
    | inr e ↦
        let q : step w (purges now) ≡ w = ground (arith, e) in subst (Purged since cfg) (sym q) h
  ]
  step-Purged w (closes ok) k h = elim (Bool-cases w.running) [
    | inl e ↦
        let v = record w { running = false } in
        let q : step w (closes ok) ≡ flush ok (drain ok w.channel v) = ground (arith, e) in
        subst (Purged since cfg) (sym q) (
          flush-Purged ok (drain ok w.channel v)
            (drain-Purged ok w.channel v (record { same = h.same; log = h.log })))
    | inr e ↦
        let q : step w (closes ok) ≡ w = ground (arith, e) in subst (Purged since cfg) (sym q) h
  ]

  run-Purged :
      (w : Writer) (es : List Event)
      → All (RetainsFrom since cfg) es
      → Purged since cfg w
      → Purged since cfg (run w es)
  unfolding run
  run-Purged w [] k h = h
  run-Purged w (e ∷ es) k h = run-Purged (step w e) es k.1 (step-Purged w e k.0 h)

  -- A new writer that runs and is closed purges as its events say.
  pub closes-Purges :
      (es : List Event) (ok : Bool)
      → All (RetainsFrom since cfg) es
      → All (PurgesBefore since) (step (run (new_writer cfg) es) (closes ok)).log
  unfolding new_writer
  closes-Purges es ok k =
      let w = new_writer cfg in
      let h : Purged since cfg w = record { same = refl; log = tt } in
      (step-Purged (run w es) (closes ok) tt (run-Purged w es k h)).log
