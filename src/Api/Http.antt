-- ===== src/Api/Http.antt =====
-- What the handlers of internal/api see of net/http: a request, and a response writer. The calls that a
-- handler makes on its writer are a list, oldest first; a handler of the program uses nothing that they
-- return. `respond` is what net/http sends for such calls.
use linkedin_api.Base.{
  ℕ, Bool, true, false, not, ◌&&◌, Option, none, some, List, [], ◌∷◌, ◌++◌, ltb, leb, ◌==◌,
  if◌then◌else◌, is_none, Text, ◌≡◌, refl, arith,
}
use linkedin_api.Base.Dict.{Dict, put}
use linkedin_api.Domain.Profile.{ProfileResult}
use linkedin_api.Api.Errors.{Response}
use linkedin_api.Api.Usage.{UsageResponse}

pub record HttpRequest : Type 0 where
  pub method : Text
  pub path : Text
  pub query : Text → Text
  pub header : Text → Text
  pub remote_addr : Text
  pub request_id : Text

-- What is written: the values that encoding/json gets, or bytes.
pub data Body : Type 0 where
  error_body : Response → Body
  profile_body : ProfileResult → Body
  status_body : Text → Body
  usage_body : UsageResponse → Body
  bytes : Text → Body

pub data Op : Type 0 where
  set_header : Text → Text → Op
  write_header : ℕ → Op
  write : Body → Op

-- The headers so far, the status and headers sent, and the body.
pub record Sent : Type 0 where
  pub headers : Dict Text
  pub status : Option ℕ
  pub sent_headers : Dict Text
  pub body : List (Body)

-- A status from 100 to 199 other than 101 is sent at once and does not count as the response's.
abbrev pub is_informational : ℕ → Bool
is_informational code = leb 100 code && ltb code 200 && not (code == 101)

abbrev pub commit : ℕ → Sent → Sent
commit code r =
    if is_none r.status then record r { status = some code; sent_headers = r.headers } else r

unfoldable pub perform : Sent → Op → Sent
unfolding put
perform r (set_header k v) = record r { headers = put k v r.headers }
perform r (write_header code) = if is_informational code then r else commit code r
perform r (write b) = let r' = commit 200 r in record r' { body = r'.body ++ (b ∷ []) }

unfoldable pub perform_all : Sent → List (Op) → Sent
unfolding perform
perform_all r [] = r
perform_all r (op ∷ ops) = perform_all (perform r op) ops

abbrev pub unsent : Sent
unsent = record { headers = []; status = none; sent_headers = []; body = [] }

-- A handler that returns without a call is answered by an empty 200.
unfoldable pub respond : List (Op) → Sent
unfolding perform_all
respond ops = commit 200 (perform_all unsent ops)

pub perform_all-append :
    (r : Sent) (xs ys : List (Op)) → perform_all r (xs ++ ys) ≡ perform_all (perform_all r xs) ys
unfolding perform_all
perform_all-append r [] ys = refl
perform_all-append r (x ∷ xs) ys = perform_all-append (perform r x) xs ys

-- Headers make no difference to the status and the body.
abbrev Alike : Sent → Sent → Type 0
Alike r q = (r.status ≡ q.status) × (r.body ≡ q.body)

perform-Alike : (r q : Sent) (op : Op) → Alike r q → Alike (perform r op) (perform q op)
unfolding perform
perform-Alike r q (set_header k v) a = a
perform-Alike r q (write_header code) a = ground arith
perform-Alike r q (write b) a = ground arith

perform_all-Alike :
    (r q : Sent) (ops : List Op) → Alike r q → Alike (perform_all r ops) (perform_all q ops)
unfolding perform_all
perform_all-Alike r q [] a = a
perform_all-Alike r q (op ∷ ops) a =
    perform_all-Alike (perform r op) (perform q op) ops (perform-Alike r q op a)

-- The calls set headers and no more: nothing is written.
abbrev pub only_headers : List Op → Bool
only_headers [] = true
only_headers (set_header k v ∷ ops) = only_headers ops
only_headers (write_header code ∷ ops) = false
only_headers (write b ∷ ops) = false

only_headers-Alike :
    (r : Sent) (ops : List Op) → only_headers ops ≡ true → Alike (perform_all r ops) r
unfolding perform_all perform
only_headers-Alike r [] h = (refl, refl)
only_headers-Alike r (set_header k v ∷ ops) h =
    only_headers-Alike (perform r (set_header k v)) ops h
only_headers-Alike r (write_header code ∷ ops) h = cc
only_headers-Alike r (write b ∷ ops) h = cc

-- What follows calls that set headers alone is sent with the same status and body.
pub respond-only_headers :
    (hs ops : List Op)
    → only_headers hs ≡ true
    → ((respond (hs ++ ops)).status ≡ (respond ops).status)
      × ((respond (hs ++ ops)).body ≡ (respond ops).body)
unfolding respond
respond-only_headers hs ops h =
    let a = perform_all-Alike (perform_all unsent hs) unsent ops (only_headers-Alike unsent hs h) in
    ground (arith, perform_all-append unsent hs ops, a)

pub respond-set_header :
    (k v : Text) (ops : List Op)
    → ((respond (set_header k v ∷ ops)).status ≡ (respond ops).status)
      × ((respond (set_header k v ∷ ops)).body ≡ (respond ops).body)
unfolding respond perform_all perform
respond-set_header k v ops =
    let a = perform_all-Alike (perform unsent (set_header k v)) unsent ops (refl, refl) in
    ground (arith, a)

-- What a handler does: the calls on its writer, whether it returns or panics, and the state after.
pub record Trace (S : Type 0) : Type 0 where
  pub ops : List (Op)
  pub returned : Bool
  pub after : S

abbrev pub Handler : Type 0 → Type 0
Handler S = HttpRequest → S → Trace S
