-- ===== src/Api/Image/Answer.antt =====
-- internal/api/image_handler.go: what a request to the image proxy is answered by.
use linkedin_api.Base.{
  ◌≤◌, ◌≡◌, refl, ◌⊎◌, inl, inr, true, false, Option, some, [], ◌∷◌, arith, ltb, ◌==◌, Bool-cases,
  Option-cases, Sum-cases, is_some, length, Text, codes,
}
use linkedin_api.Base.{strip_prefix, text_eq_iff}
use linkedin_api.Base.{text_eq, ◌==◌}
use linkedin_api.Base.Dict.{get}
use linkedin_api.Domain.Errors.{Err, plain, structured, invalid, upstream_unavailable, Cause, cause}
use linkedin_api.Api.Http.{HttpRequest, Trace, bytes, respond, perform_all}
use linkedin_api.Api.Server.{Server}
use linkedin_api.Api.Errors.{write_error, status_for}
use linkedin_api.Domain.Errors.{as_error}
use linkedin_api.Api.Middleware.{fail, respond-fail}
use linkedin_api.Api.Image.{
  Target, ImageResponse, Images, checked, accepted_host, proxy, handle_image, max_image_bytes,
  answer, in_world,
}

-- A response that can be passed on: a whole image, not too large.
pub record Usable (media_type : Text → Option Text) (resp : ImageResponse) (ct b : Text)
    : Type 0 where
  pub complete : resp.status ≡ 200
  pub typed : media_type resp.content_type ≡ some ct
  pub whole : resp.body ≡ inr b
  pub is_image : is_some (strip_prefix (codes "image/") ct) ≡ true
  pub small : length b ≤ max_image_bytes

module _ {W L : Type 0} where
  -- The image that a client gets: the body of a usable response from upstream, under its media
  -- type.
  pub record ImageSent (media_type : Text → Option Text) (outcome : Err ⊎ ImageResponse)
      (t : Trace (Server W L)) : Type 0 where
    pub response : ImageResponse
    pub content_type : Text
    pub content : Text
    pub received : outcome ≡ inr response
    pub usable : Usable media_type response content_type content
    pub status : (respond t.ops).status ≡ some 200
    pub header : get (codes "Content-Type") (respond t.ops).sent_headers ≡ some content_type
    pub body : (respond t.ops).body ≡ bytes content ∷ []

  -- A failure, which only an outcome without a usable response has.
  pub record Unavailable (media_type : Text → Option Text) (outcome : Err ⊎ ImageResponse)
      (t : Trace (Server W L)) : Type 0 where
    pub status : (respond t.ops).status ≡ some 503
    pub unusable :
        (response : ImageResponse) (content_type content : Text)
        → outcome ≡ inr response
        → ¬ Usable media_type response content_type content

  -- A request for an accepted URL that is sent upstream, and its answer.
  pub record Fetched (c : Images W) (req : HttpRequest) (s : Server W L) (t : Trace (Server W L))
      : Type 0 where
    pub target : Target
    pub parsed : c.parse_url (req.query (codes "url")) ≡ some target
    pub scheme : target.scheme ≡ codes "https"
    pub host : target.host ≡ codes "media.licdn.com"
    pub no_user : target.has_user ≡ false
    pub world : t.after.service.world ≡ (c.send s.service.world target.text).1
    pub answered :
        let outcome = (c.send s.service.world target.text).0 in
        Unavailable c.media_type outcome t ⊎ ImageSent c.media_type outcome t

  -- A request that sends nothing.
  abbrev pub Rejected : Server W L → Trace (Server W L) → Type 0
  Rejected s t = ((respond t.ops).status ≡ some 400) × (t.after.service.world ≡ s.service.world)

-- A response is passed on only as a small image, and is else a failure of LinkedIn.
checked-Image :
    (media_type : Text → Option Text) (resp : ImageResponse)
    → ((e : Cause) × (checked media_type resp ≡ inl (structured (upstream_unavailable e))))
      ⊎ ((ct : Text) × (b : Text) × (checked media_type resp ≡ inr (ct, b))
          × Usable media_type resp ct b)
unfolding checked
checked-Image media_type resp = elim (Bool-cases (resp.status == 200)) [
  | inr e ↦ inl (cause (plain (codes "image response status")), rw (e, checked))
  | inl e ↦ elim (Option-cases (media_type resp.content_type)) [
    | inl m ↦ inl (cause (plain (codes "invalid image content type")), rw (e, m, checked))
    | inr (ct, m) ↦ elim (Bool-cases (is_some (strip_prefix (codes "image/") ct))) [
      | inr i ↦ inl (cause (plain (codes "invalid image content type")), rw (e, m, i, checked))
      | inl i ↦ elim (Sum-cases resp.body) [
        | inl (err, b) ↦
            inl (cause (plain (codes "image response exceeds limit")), rw (e, m, i, b, checked))
        | inr (body, b) ↦ elim (Bool-cases (ltb max_image_bytes (length body))) [
          | inl l ↦
              inl
                (cause (plain (codes "image response exceeds limit")), rw (e, m, i, b, l, checked))
          | inr l ↦ inr (
            ct,
            body,
            rw (e, m, i, b, l, checked),
            record {
              complete = ground (arith, e);
              typed = m;
              whole = b;
              is_image = i;
              small = ground (arith, l);
            },
          )
        ]
      ]
    ]
  ]
]

Usable-checked :
    (media_type : Text → Option Text) (resp : ImageResponse) (ct b : Text)
    → Usable media_type resp ct b
    → checked media_type resp ≡ inr (ct, b)
unfolding checked
Usable-checked media_type resp ct b u =
    ground (arith, u.complete, u.typed, u.whole, u.is_image, u.small)

checked-unusable :
    (media_type : Text → Option Text) (resp response : ImageResponse) (e : Cause) (ct b : Text)
    → checked media_type resp ≡ inl (structured (upstream_unavailable e))
    → let outcome : Err ⊎ ImageResponse = inr resp in
      outcome ≡ inr response → ¬ Usable media_type response ct b
checked-unusable media_type resp response e ct b k q u =
    let c = Usable-checked media_type response ct b u in cc

abbrev refusal : Text
refusal = codes "image URL must use https://media.licdn.com"

module _ {W L : Type 0} where
  rejected :
      (msg : Text) (req : HttpRequest) (s : Server W L)
      → Rejected s (fail (structured (invalid msg)) req s)
  unfolding fail write_error as_error status_for
  rejected msg req s = ((respond-fail (structured (invalid msg)) req s).0, refl)

  unavailable :
      (e : Cause) (req : HttpRequest) (s : Server W L)
      → (respond (fail (structured (upstream_unavailable e)) req s).ops).status ≡ some 503
  unfolding fail write_error as_error status_for
  unavailable e req s = (respond-fail (structured (upstream_unavailable e)) req s).0

  image_sent :
      (media_type : Text → Option Text) (resp : ImageResponse) (ct b : Text) (req : HttpRequest)
      (s : Server W L)
      → Usable media_type resp ct b
      → ImageSent media_type (inr resp) (answer (inr (ct, b)) req s)
  unfolding respond perform_all text_eq get
  image_sent media_type resp ct b req s u = record {
    response = resp;
    content_type = ct;
    content = b;
    received = refl;
    usable = u;
    status = refl;
    header = refl;
    body = refl;
  }

  abbrev Responded : (Text → Option Text) → (Err ⊎ ImageResponse) × W → Trace (Server W L) → Type 0
  Responded media_type (outcome, w) t =
      (t.after.service.world ≡ w)
      × (Unavailable media_type outcome t ⊎ ImageSent media_type outcome t)

  failed :
      (media_type : Text → Option Text) (outcome : Err ⊎ ImageResponse) (s : Server W L) (w : W)
      (e : Cause) (req : HttpRequest)
      → ((response : ImageResponse) (ct b : Text)
          → outcome ≡ inr response
          → ¬ Usable media_type response ct b)
      → Responded media_type
          (outcome, w)
          (fail (structured (upstream_unavailable e)) req (in_world w s))
  unfolding fail
  failed media_type outcome s w e req n =
      (refl, inl (record { status = unavailable e req (in_world w s); unusable = n }))

  proxy-Responded :
      (c : Images W) (target : Target) (req : HttpRequest) (s : Server W L)
      → Rejected s (proxy c target req s)
        ⊎ Responded c.media_type (c.send s.service.world target.text) (proxy c target req s)
  unfolding proxy
  proxy-Responded c target req s = elim (Bool-cases (c.is_request target.text)) [
    | inr e ↦ inl (rw (e, proxy) (rejected (codes "image URL is malformed") req s))
    | inl e ↦
        let w = (c.send s.service.world target.text).1 in
        let s1 = in_world w s in
        inr (elim (Sum-cases (c.send s.service.world target.text).0) [
          | inl (err, a) ↦
              rw (e, a, proxy)
                (failed c.media_type (inl err) s w (cause err) req (λ response ct b q u. cc))
          | inr (resp, a) ↦ elim (checked-Image c.media_type resp) [
            | inl (x, k) ↦
                rw (e, a, k, proxy)
                  (failed c.media_type (inr resp) s w x req
                    (λ response ct b. checked-unusable c.media_type resp response x ct b k))
            | inr (ct, b, k, u) ↦
                rw (e, a, k, proxy) (refl, inr (image_sent c.media_type resp ct b req s1 u))
          ]
        ])
  ]

  -- Either an image request is answered by 400 and nothing is fetched, or its URL is of the scheme
  -- https, of exactly the host media.licdn.com and without a user, is the one URL that is fetched,
  -- and what comes back is answered by its body under its media type if it is a whole response of
  -- status 200, of an image type and at most 8 MiB, and by 503 if not.
  pub handle_image-Fetched :
      (c : Images W) (req : HttpRequest) (s : Server W L)
      → Rejected s (handle_image c req s) ⊎ Fetched c req s (handle_image c req s)
  unfolding handle_image
  handle_image-Fetched c req s = elim (Option-cases (c.parse_url (req.query (codes "url")))) [
    | inl e ↦ inl (rw (e, handle_image) (rejected refusal req s))
    | inr (target, e) ↦ elim (Bool-cases (accepted_host target)) [
      | inr a ↦ inl (rw (e, a, handle_image) (rejected refusal req s))
      | inl a ↦ elim (proxy-Responded c target req s) [
        | inl r ↦ inl (rw (e, a, handle_image) r)
        | inr r ↦ inr (record {
          target = target;
          parsed = e;
          scheme = (text_eq_iff target.scheme (codes "https")).0 (ground (arith, a));
          host = (text_eq_iff target.host (codes "media.licdn.com")).0 (ground (arith, a));
          no_user = ground (arith, a);
          world = rw (e, a, handle_image) (r.0);
          answered = rw (e, a, handle_image) (r.1);
        })
      ]
    ]
  ]
