-- ===== src/Audit/Writer/Bounds.antt =====
-- internal/audit/writer.go: the sizes of batches and of the channel.
use linkedin_api.Base.{
  ℕ, ◌-◌, ◌+◌, ◌≤◌, ◌<◌, ◌≡◌, refl, sym, ap, subst, inl, inr, Bool, false, List, [], ◌∷◌, ◌++◌,
  arith, ltb, leb, Bool-cases, length, length-append, All, All-append,
}
use linkedin_api.Audit.Event.{Record}
use linkedin_api.Audit.Writer.{
  WriterConfig, Writer, new_writer, enqueue, flush, add, drain, Event, records, receives, ticks,
  purges, closes, step, run, StoreCall, inserts, deletes, is_unset, purge,
}

-- A call of the store that Insert's contract allows.
abbrev pub SizedCall : WriterConfig → StoreCall → Type 0
SizedCall cfg (inserts b) = (0 < length b) × (length b ≤ cfg.batch_size)
SizedCall cfg (deletes before) = Unit {0}

-- Every batch handed to the store holds from one to `batch_size` records; the one in hand fewer.
pub record Sized (cfg : WriterConfig) (w : Writer) : Type 0 where
  pub same : w.cfg ≡ cfg
  pub positive : 0 < cfg.batch_size
  pub channel : length w.channel ≤ cfg.buffer_size
  pub batch : length w.batch < cfg.batch_size
  pub log : All (SizedCall cfg) w.log

module _ (cfg : WriterConfig) where
  flush_one :
      (ok : Bool) (b : List Record) (w : Writer)
      → w.batch ≡ b
      → w.cfg ≡ cfg
      → 0 < cfg.batch_size
      → length w.channel ≤ cfg.buffer_size
      → length b ≤ cfg.batch_size
      → All (SizedCall cfg) w.log
      → Sized cfg (flush ok w)
  unfolding flush
  flush_one ok [] w e same p ch le every =
      rw e (record { same = same; positive = p; channel = ch; batch = p; log = every })
  flush_one ok (r ∷ b) w e same p ch le every = rw e (record {
    same = same;
    positive = p;
    channel = ch;
    batch = omega arith;
    log = All-append (SizedCall cfg) w.log (inserts (r ∷ b) ∷ []) every ((omega arith, le), tt);
  })

  flush-Sized : (ok : Bool) (w : Writer) → Sized cfg w → Sized cfg (flush ok w)
  flush-Sized ok w h =
      flush_one ok w.batch w refl h.same h.positive h.channel (omega (arith, h.batch)) h.log

  add-Sized : (ok : Bool) (rec : Record) (w : Writer) → Sized cfg w → Sized cfg (add ok rec w)
  unfolding add
  add-Sized ok rec w h =
      let w' = record w { batch = w.batch ++ (rec ∷ []) } in
      let more : length w'.batch ≡ length w.batch + 1 = length-append w.batch (rec ∷ []) in
      elim (Bool-cases (leb w'.cfg.batch_size (length w'.batch))) [
        | inl e ↦ rw e (
            flush_one ok w'.batch w' refl h.same h.positive h.channel (omega (arith, more, h.batch))
              h.log)
        | inr e ↦ rw e (record {
          same = h.same;
          positive = h.positive;
          channel = h.channel;
          batch = ground (arith, e, ap (λ c. c.batch_size) h.same);
          log = h.log;
        })
      ]

  drain-Sized :
      (ok : Bool) (c : List Record) (w : Writer)
      → length c ≤ cfg.buffer_size
      → Sized cfg w
      → Sized cfg (drain ok c w)
  unfolding drain
  drain-Sized ok [] w le h = h
  drain-Sized ok (rec ∷ c) w le h =
      let shorter = record w { channel = c } in
      let sized : Sized cfg shorter = record {
        same = h.same;
        positive = h.positive;
        channel = omega (arith, le);
        batch = h.batch;
        log = h.log;
      } in
      drain-Sized ok c (add ok rec shorter) (omega (arith, le)) (add-Sized ok rec shorter sized)

  purge-Sized : (now : ℕ) (w : Writer) → Sized cfg w → Sized cfg (purge now w)
  unfolding purge
  purge-Sized now w h = elim (Bool-cases (is_unset w.cfg.retention)) [
    | inl e ↦ rw e h
    | inr e ↦ rw e (record {
      same = h.same;
      positive = h.positive;
      channel = h.channel;
      batch = h.batch;
      log = All-append (SizedCall cfg) w.log (deletes (now - w.cfg.retention) ∷ []) h.log (tt, tt);
    })
  ]

  step-Sized : (w : Writer) (e : Event) → Sized cfg w → Sized cfg (step w e)
  unfolding step enqueue
  step-Sized w (records rec) h = elim (Bool-cases (ltb (length w.channel) w.cfg.buffer_size)) [
    | inr e ↦ rw e (record {
      same = h.same;
      positive = h.positive;
      channel = h.channel;
      batch = h.batch;
      log = h.log;
    })
    | inl e ↦ rw e (record {
      same = h.same;
      positive = h.positive;
      channel =
          ground (arith, e, length-append w.channel (rec ∷ []), ap (λ c. c.buffer_size) h.same);
      batch = h.batch;
      log = h.log;
    })
  ]
  step-Sized w (receives ok) h = go w.channel refl
    where
      go : (c : List Record) → w.channel ≡ c → Sized cfg (step w (receives ok))
      go [] e = let q : step w (receives ok) ≡ w = ground (arith, e) in subst (Sized cfg) (sym q) h
      go (rec ∷ c) e =
          let shorter = record w { channel = c } in
          let le : length c ≤ cfg.buffer_size = omega (arith, ap length e, h.channel) in
          let sized : Sized cfg shorter = record {
            same = h.same;
            positive = h.positive;
            channel = le;
            batch = h.batch;
            log = h.log;
          } in
          elim (Bool-cases w.running) [
            | inl r ↦
                let q : step w (receives ok) ≡ add ok rec shorter = ground (arith, e, r) in
                subst (Sized cfg) (sym q) (add-Sized ok rec shorter sized)
            | inr r ↦
                let q : step w (receives ok) ≡ w = ground (arith, e, r) in
                subst (Sized cfg) (sym q) h
          ]
  step-Sized w (ticks ok) h = elim (Bool-cases w.running) [
    | inl e ↦
        let q : step w (ticks ok) ≡ flush ok w = ground (arith, e) in
        subst (Sized cfg) (sym q) (flush-Sized ok w h)
    | inr e ↦ let q : step w (ticks ok) ≡ w = ground (arith, e) in subst (Sized cfg) (sym q) h
  ]
  step-Sized w (purges now) h = elim (Bool-cases w.running) [
    | inl e ↦
        let q : step w (purges now) ≡ purge now w = ground (arith, e) in
        subst (Sized cfg) (sym q) (purge-Sized now w h)
    | inr e ↦ let q : step w (purges now) ≡ w = ground (arith, e) in subst (Sized cfg) (sym q) h
  ]
  step-Sized w (closes ok) h = elim (Bool-cases w.running) [
    | inl e ↦
        let v = record w { running = false } in
        let sized : Sized cfg v = record {
          same = h.same;
          positive = h.positive;
          channel = h.channel;
          batch = h.batch;
          log = h.log;
        } in
        let q : step w (closes ok) ≡ flush ok (drain ok w.channel v) = ground (arith, e) in
        subst (Sized cfg) (sym q)
          (flush-Sized ok (drain ok w.channel v) (drain-Sized ok w.channel v h.channel sized))
    | inr e ↦ let q : step w (closes ok) ≡ w = ground (arith, e) in subst (Sized cfg) (sym q) h
  ]

  run-Sized : (w : Writer) (es : List Event) → Sized cfg w → Sized cfg (run w es)
  unfolding run
  run-Sized w [] h = h
  run-Sized w (e ∷ es) h = run-Sized (step w e) es (step-Sized w e h)

-- From a new writer, after any events, the channel holds at most BufferSize records, the batch in
-- hand fewer than BatchSize, and every batch handed to the store from one to BatchSize.
pub run-new_writer-Sized :
    (cfg : WriterConfig) (es : List Event) → let w = new_writer cfg in Sized w.cfg (run w es)
unfolding new_writer
run-new_writer-Sized cfg es =
    let w = new_writer cfg in
    run-Sized w.cfg w es (record {
      same = refl;
      positive = ground arith;
      channel = ground arith;
      batch = ground arith;
      log = tt;
    })
