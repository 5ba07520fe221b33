-- ===== src/Api/ClientIp.antt =====
-- internal/api/middleware.go: clientIP. net.SplitHostPort is the parameter `split_host`.
use linkedin_api.Base.{
  ℕ, ◌-◌, ◌≡◌, refl, ap, ◌∙◌, inl, inr, false, not, ◌&&◌, Option, none, some, List, [], ◌∷◌, ◌++◌,
  arith, ltb, ◌==◌, if◌then◌else◌, Bool-cases, length, length-append, is_nil, get_elem?, Text,
}
use linkedin_api.Base.{split, split_on, trim_space}

-- The entry that the closest trusted proxy recorded, or the first if there are fewer.
unfoldable pub entry_from_right : ℕ → List Text → Text
unfolding trim_space
entry_from_right depth parts =
    elim (get_elem? parts (if ltb (length parts) depth then 0 else length parts - depth)) [
      | none ↦ []
      | some p ↦ trim_space p
    ]

-- The header X-Forwarded-For, the remote address, and the depth of trusted proxies.
unfoldable pub client_ip : (Text → Option Text) → Text → Text → ℕ → Text
unfolding split entry_from_right
client_ip split_host xff remote_addr depth =
    let ip = entry_from_right depth (split b',' xff) in
    let peer : Text = elim (split_host remote_addr) [ none ↦ remote_addr | some host ↦ host ] in
    if ltb 0 depth && not (is_nil xff) && not (is_nil ip) then ip else peer

split_on-append :
    (sep : ℕ) (a b : Text)
    → ((split_on sep (a ++ (sep ∷ b))).0 ≡ (split_on sep a).0)
      × ((split_on sep (a ++ (sep ∷ b))).1 ≡ (split_on sep a).1 ++ split sep b)
unfolding split split_on
split_on-append sep [] b = ground arith
split_on-append sep (c ∷ a) b = elim (Bool-cases (c == sep)) [
  | inl e ↦ let (p, q) = split_on-append sep a b in rw (split_on, e) (refl, rw (p, q) refl)
  | inr e ↦ let (p, q) = split_on-append sep a b in rw (split_on, e) (ap (λ l. c ∷ l) p, q)
]

split-append : (sep : ℕ) (a b : Text) → split sep (a ++ (sep ∷ b)) ≡ split sep a ++ split sep b
unfolding split
split-append sep a b =
    let (p, q) = split_on-append sep a b in
    ap (λ l. l ∷ (split_on sep (a ++ (sep ∷ b))).1) p ∙ ap (λ l. (split_on sep a).0 ∷ l) q

get_elem?-length : (xs ys : List Text) → get_elem? (xs ++ ys) (length xs) ≡ get_elem? ys 0
get_elem?-length [] ys = refl
get_elem?-length (x ∷ xs) ys = get_elem?-length xs ys

-- With as many entries after the client's text as there are trusted proxies, the entry that counts
-- is the first of those.
entry_from_right_lem :
    (depth : ℕ) (forged own : List Text)
    → length own ≡ depth
    → entry_from_right depth (forged ++ own) ≡ entry_from_right depth own
unfolding entry_from_right
entry_from_right_lem depth forged own h =
    let sum = length-append forged own in
    let at : length (forged ++ own) - depth ≡ length forged = omega (arith, sum, h) in
    let here : length own - depth ≡ 0 = omega (arith, h) in
    ground (arith, sum, h, at, here, get_elem?-length forged own)

-- Whatever a client sends as X-Forwarded-For, once the trusted proxies have appended one entry
-- each, the address is the one for those entries alone.
pub client_ip-forged :
    (split_host : Text → Option Text) (forged own remote_addr : Text) (depth : ℕ)
    → length (split b',' own) ≡ depth
    → is_nil own ≡ false
    → client_ip split_host (forged ++ (b',' ∷ own)) remote_addr depth
      ≡ client_ip split_host own remote_addr depth
unfolding client_ip
client_ip-forged split_host forged own remote_addr depth h nn =
    let parts = split-append b',' forged own in
    let full : is_nil (forged ++ (b',' ∷ own)) ≡ false = not_nil forged in
    rw (parts, entry_from_right_lem depth (split b',' forged) (split b',' own) h, full, nn) refl
  where
    not_nil : (xs : Text) → is_nil (xs ++ (b',' ∷ own)) ≡ false
    not_nil [] = refl
    not_nil (x ∷ xs) = refl
