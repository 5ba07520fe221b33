-- ===== src/Audit/Writer/Conserved.antt =====
-- internal/audit/writer.go: no accepted record is lost, repeated or put out of order.
use linkedin_api.Base.{
  ℕ, ◌-◌, ◌≡◌, refl, sym, ap, ◌∙◌, inl, inr, Bool, true, false, List, [], ◌∷◌, ◌++◌, arith, ltb,
  leb, Bool-cases, length, is_nil,
}
use linkedin_api.Audit.Event.{Record}
use linkedin_api.Audit.Writer.{
  WriterConfig, Writer, new_writer, enqueue, flush, add, drain, Event, records, receives, ticks,
  purges, closes, step, run, entered, accepted, submitted, holdings, StoreCall, inserts, deletes,
  is_unset, purge,
}

append_assoc : (xs ys zs : List Record) → (xs ++ ys) ++ zs ≡ xs ++ (ys ++ zs)
append_assoc [] ys zs = refl
append_assoc (x ∷ xs) ys zs = ap (λ l. x ∷ l) (append_assoc xs ys zs)

append_nil : (xs : List Record) → xs ++ [] ≡ xs
append_nil [] = refl
append_nil (x ∷ xs) = ap (λ l. x ∷ l) (append_nil xs)

submitted-append :
    (cs : List StoreCall) (b : List Record) → submitted (cs ++ (inserts b ∷ [])) ≡ submitted cs ++ b
submitted-append [] b = append_nil b
submitted-append (inserts c ∷ cs) b =
    ap (λ l. c ++ l) (submitted-append cs b) ∙ sym (append_assoc c (submitted cs) b)
submitted-append (deletes before ∷ cs) b = submitted-append cs b

submitted-deletes :
    (cs : List StoreCall) (before : ℕ) → submitted (cs ++ (deletes before ∷ [])) ≡ submitted cs
submitted-deletes [] before = refl
submitted-deletes (inserts c ∷ cs) before = ap (λ l. c ++ l) (submitted-deletes cs before)
submitted-deletes (deletes n ∷ cs) before = submitted-deletes cs before

purge-holdings : (now : ℕ) (w : Writer) → holdings (purge now w) ≡ holdings w
unfolding purge
purge-holdings now w = elim (Bool-cases (is_unset w.cfg.retention)) [
  | inl e ↦ rw e refl
  | inr e ↦
      rw e (ap (λ l. l ++ (w.batch ++ w.channel)) (submitted-deletes w.log (now - w.cfg.retention)))
]

flush-holdings : (ok : Bool) (w : Writer) → holdings (flush ok w) ≡ holdings w
unfolding flush
flush-holdings ok w = elim (Bool-cases (is_nil w.batch)) [
  | inl e ↦ rw e refl
  | inr e ↦
      rw (e, submitted-append w.log w.batch) (append_assoc (submitted w.log) w.batch w.channel)
]

add-holdings :
    (ok : Bool) (rec : Record) (w : Writer)
    → holdings (add ok rec w) ≡ submitted w.log ++ (w.batch ++ (rec ∷ w.channel))
unfolding add
add-holdings ok rec w =
    let w' = record w { batch = w.batch ++ (rec ∷ []) } in
    let base : holdings w' ≡ submitted w.log ++ (w.batch ++ (rec ∷ w.channel)) =
      ap (λ l. submitted w.log ++ l) (append_assoc w.batch (rec ∷ []) w.channel) in
    elim (Bool-cases (leb w'.cfg.batch_size (length w'.batch))) [
      | inl e ↦ rw e (flush-holdings ok w' ∙ base)
      | inr e ↦ rw e base
    ]

add-channel : (ok : Bool) (rec : Record) (w : Writer) → (add ok rec w).channel ≡ w.channel
unfolding add flush
add-channel ok rec w = ground arith

flush-channel : (ok : Bool) (w : Writer) → (flush ok w).channel ≡ w.channel
unfolding flush
flush-channel ok w = ground arith

drain-empties :
    (ok : Bool) (c : List Record) (w : Writer)
    → w.channel ≡ c
    → ((drain ok c w).channel ≡ []) × (holdings (drain ok c w) ≡ holdings w)
unfolding drain
drain-empties ok [] w h = (h, refl)
drain-empties ok (rec ∷ c) w h =
    let v = add ok rec (record w { channel = c }) in
    let (a, b) = drain-empties ok c v (add-channel ok rec (record w { channel = c })) in
    (
      a,
      b
          ∙ (add-holdings ok rec (record w { channel = c })
              ∙ ap (λ l. submitted w.log ++ (w.batch ++ l)) (sym h)),
    )

flush-batch : (ok : Bool) (w : Writer) → (flush ok w).batch ≡ []
unfolding flush
flush-batch ok w = go w.batch refl
  where
    go : (b : List Record) → w.batch ≡ b → (flush ok w).batch ≡ []
    go [] e = ground (arith, e)
    go (r ∷ b) e = ground (arith, e)

log_only : (w : Writer) → w.batch ≡ [] → w.channel ≡ [] → holdings w ≡ submitted w.log
log_only w b c = rw (b, c) (append_nil (submitted w.log))

step-holdings : (w : Writer) (e : Event) → holdings (step w e) ≡ holdings w ++ entered w e
unfolding step enqueue
step-holdings w (records rec) = elim (Bool-cases (ltb (length w.channel) w.cfg.buffer_size)) [
  | inl e ↦ rw e (
      ap (λ l. submitted w.log ++ l) (sym (append_assoc w.batch w.channel (rec ∷ [])))
      ∙ sym (append_assoc (submitted w.log) (w.batch ++ w.channel) (rec ∷ [])))
  | inr e ↦ rw e (sym (append_nil (holdings w)))
]
step-holdings w (receives ok) = go w.channel refl ∙ sym (append_nil (holdings w))
  where
    go : (c : List Record) → w.channel ≡ c → holdings (step w (receives ok)) ≡ holdings w
    go [] e = ground (arith, e)
    go (rec ∷ c) e =
        ground (arith, e, add-holdings ok rec (record w { channel = c }), Bool-cases w.running)
step-holdings w (ticks ok) = elim (Bool-cases w.running) [
  | inl e ↦ ground (arith, e, flush-holdings ok w, append_nil (holdings w))
  | inr e ↦ rw e (sym (append_nil (holdings w)))
]
step-holdings w (purges now) = elim (Bool-cases w.running) [
  | inl e ↦
      let q : step w (purges now) ≡ purge now w = ground (arith, e) in
      ap holdings q ∙ (purge-holdings now w ∙ sym (append_nil (holdings w)))
  | inr e ↦
      let q : step w (purges now) ≡ w = ground (arith, e) in
      ap holdings q ∙ sym (append_nil (holdings w))
]
step-holdings w (closes ok) = elim (Bool-cases w.running) [
  | inl e ↦
      let v = record w { running = false } in
      rw e (
        flush-holdings ok (drain ok w.channel v)
        ∙ ((drain-empties ok w.channel v refl).1 ∙ sym (append_nil (holdings w))))
  | inr e ↦ rw e (sym (append_nil (holdings w)))
]

-- Whatever runs, the batches handed to the store, the batch in hand and the channel hold, in this
-- order, what they held before and then every record accepted since.
pub run-holdings :
    (w : Writer) (es : List Event) → holdings (run w es) ≡ holdings w ++ accepted w es
unfolding run
run-holdings w [] = sym (append_nil (holdings w))
run-holdings w (e ∷ es) =
    run-holdings (step w e) es
    ∙ (ap (λ l. l ++ accepted (step w e) es) (step-holdings w e)
        ∙ append_assoc (holdings w) (entered w e) (accepted (step w e) es))

-- When a new writer that has not been closed yet is closed, after any events, the batches handed to
-- the store hold every record accepted until then, each once and in the order of acceptance.
pub closes-run :
    (cfg : WriterConfig) (es : List Event) (ok : Bool)
    → let w = run (new_writer cfg) es in
      w.running ≡ true → submitted (step w (closes ok)).log ≡ accepted (new_writer cfg) es
unfolding new_writer step
closes-run cfg es ok h =
    let w = run (new_writer cfg) es in
    let v = record w { running = false } in
    let d = drain ok w.channel v in
    let (empty, same) = drain-empties ok w.channel v refl in
    let all : holdings (flush ok d) ≡ accepted (new_writer cfg) es =
      flush-holdings ok d ∙ (same ∙ run-holdings (new_writer cfg) es) in
    let left = log_only (flush ok d) (flush-batch ok d) (flush-channel ok d ∙ empty) in
    ground (arith, h, left, all)
