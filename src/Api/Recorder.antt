-- ===== src/Api/Recorder.antt =====
-- internal/api/response.go: statusRecorder and writeJSON. A recorder sees the calls that its handler
-- makes and hands on those that it does not swallow.
use linkedin_api.Base.{
  ℕ, Bool, true, false, not, none, some, List, [], ◌∷◌, ◌++◌, ◌==◌, if◌then◌else◌, codes, All, ◌≡◌,
  refl, ap, ◌∙◌, arith, ◌≤◌, is_none,
}
use linkedin_api.Api.Http.{
  Op, Body, Sent, set_header, write_header, write, perform, perform_all, respond, unsent, commit,
  perform_all-append,
}

pub record Recorder : Type 0 where
  pub status : ℕ
  pub wrote : Bool

abbrev pub new_recorder : Recorder
new_recorder = record { status = 0; wrote = false }

-- (*statusRecorder).Status
unfoldable pub recorded_status : Recorder → ℕ
recorded_status r = if r.status == 0 then 200 else r.status

-- WriteHeader, Write and Header: the recorder after the call, and what reaches the writer inside.
unfoldable pub record_op : Recorder → Op → Recorder × List (Op)
record_op r (set_header k v) = (r, set_header k v ∷ [])
record_op r (write_header code) =
    if r.wrote then (r, []) else (record { status = code; wrote = true }, write_header code ∷ [])
record_op r (write b) =
    ((if r.wrote then r else record { status = 200; wrote = true }), write b ∷ [])

unfoldable pub record_ops : Recorder → List (Op) → Recorder × List (Op)
unfolding record_op
record_ops r [] = (r, [])
record_ops r (op ∷ ops) =
    let (r', inner) = record_op r op in let (r'', rest) = record_ops r' ops in (r'', inner ++ rest)

unfoldable pub write_json : ℕ → Body → List (Op)
write_json status b =
    set_header (codes "Content-Type") (codes "application/json; charset=utf-8")
    ∷ write_header status
    ∷ write b
    ∷ []

-- The statuses that a handler sends are those of whole responses.
abbrev pub Final : Op → Type 0
Final (set_header k v) = Unit {0}
Final (write_header code) = 200 ≤ code
Final (write b) = Unit {0}

-- What a recorder knows of the response so far.
record Agrees (r : Recorder) (s : Sent) : Type 0 where
  wrote : r.wrote ≡ not (is_none s.status)
  status : (if r.wrote then some r.status else none) ≡ s.status
  positive : r.wrote ≡ true → 200 ≤ r.status
  zeroed : r.wrote ≡ false → r.status ≡ 0

record_op-Agrees :
    (r : Recorder) (s : Sent) (op : Op)
    → Final op
    → Agrees r s
    → Agrees (record_op r op).0 (perform s op) × (perform_all s (record_op r op).1 ≡ perform s op)
unfolding record_op perform perform_all
record_op-Agrees r s (set_header k v) f a = (ground arith, refl)
record_op-Agrees r s (write b) f a = (ground arith, refl)
record_op-Agrees r s (write_header code) f a = ground arith

record_ops-Agrees :
    (r : Recorder) (s : Sent) (ops : List (Op))
    → All Final ops
    → Agrees r s
    → Agrees (record_ops r ops).0 (perform_all s ops)
      × (perform_all s (record_ops r ops).1 ≡ perform_all s ops)
unfolding record_ops perform_all
record_ops-Agrees r s [] f a = (a, refl)
record_ops-Agrees r s (op ∷ ops) f a =
    let (one, same) = record_op-Agrees r s op f.0 a in
    let (all, rest) = record_ops-Agrees (record_op r op).0 (perform s op) ops f.1 one in
    let inner = (record_op r op).1 in
    let more = (record_ops (record_op r op).0 ops).1 in
    (all, perform_all-append s inner more ∙ ap (λ x. perform_all x more) same ∙ rest)

new_recorder-Agrees : Agrees new_recorder unsent
new_recorder-Agrees = ground arith

-- For calls whose statuses are those of whole responses, the client gets through a statusRecorder
-- the response that it would get without one, and Status is the status of that response.
pub respond-record_ops :
    (ops : List (Op))
    → All Final ops
    → let (r, inner) = record_ops new_recorder ops in
      (respond inner ≡ respond ops) × ((respond ops).status ≡ some (recorded_status r))
unfolding respond recorded_status
respond-record_ops ops f =
    let (a, same) = record_ops-Agrees new_recorder unsent ops f new_recorder-Agrees in
    (ap (commit 200) same, ground (arith, a.wrote, a.status, a.positive, a.zeroed))
