-- ===== src/Api/Image.antt =====
-- internal/api/image_handler.go: the image proxy. Of the standard library, url.Parse, the text of a URL,
-- http.NewRequestWithContext, http.Client.Do and mime.ParseMediaType are the fields of `Images`.
pub mod Answer
use linkedin_api.Base.{
  ℕ, ◌+◌, ◌<◌, ◌≤◌, ◌≡◌, refl, ◌⊎◌, inl, inr, Bool, true, false, not, ◌||◌, ◌&&◌, Option, none,
  some, [], ◌∷◌, arith, ltb, ◌==◌, if◌then◌else◌, Bool-cases, Option-cases, Sum-cases, is_some,
  length, Text, codes, text_eq,
}
use linkedin_api.Base.{strip_prefix, text_eq_iff}
use linkedin_api.Domain.Errors.{Error, Err, plain, structured, invalid, upstream_unavailable, cause}
use linkedin_api.Api.Http.{
  HttpRequest, Handler, Trace, Op, Body, bytes, set_header, write_header, write,
}
use linkedin_api.Api.Server.{Server}
use linkedin_api.Api.Middleware.{fail}

-- 8 << 20
abbrev pub max_image_bytes : ℕ
max_image_bytes = 8_388_608

-- *url.URL, as far as it is read; `text` is its String().
pub record Target : Type 0 where
  pub scheme : Text
  pub host : Text
  pub has_user : Bool
  pub text : Text

-- `body` is what io.ReadAll makes of the body up to one byte past the limit.
pub record ImageResponse : Type 0 where
  pub status : ℕ
  pub content_type : Text
  pub body : Err ⊎ Text

-- `send` follows no redirect, as defaultImageClient is set up.
pub record Images (W : Type 0) : Type 0 where
  pub parse_url : Text → Option Target
  pub is_request : Text → Bool
  pub send : W → Text → (Err ⊎ ImageResponse) × W
  pub media_type : Text → Option Text

abbrev pub accepted_host : Target → Bool
accepted_host t =
    text_eq t.scheme (codes "https") && text_eq t.host (codes "media.licdn.com") && not t.has_user

-- The media type and the bytes of a response that is passed on, or the error it is answered by.
unfoldable pub checked : (Text → Option Text) → ImageResponse → Err ⊎ (Text × Text)
unfolding strip_prefix
checked media_type resp =
    let refused = λ (msg : Text). structured (upstream_unavailable (cause (plain msg))) in
    if not (resp.status == 200)
    then inl (refused (codes "image response status"))
    else elim (media_type resp.content_type) [
      | none ↦ inl (refused (codes "invalid image content type"))
      | some content_type ↦
          if not (is_some (strip_prefix (codes "image/") content_type))
          then inl (refused (codes "invalid image content type"))
          else elim resp.body [
            | inl err ↦ inl (refused (codes "image response exceeds limit"))
            | inr body ↦
                if ltb max_image_bytes (length body)
                then inl (refused (codes "image response exceeds limit"))
                else inr (content_type, body)
          ]
    ]

abbrev pub in_world : {W L : Type 0} → W → Server W L → Server W L
in_world w s = record s { service = record (s.service) { world = w } }

module _ {W L : Type 0} where
  abbrev pub answer : Err ⊎ (Text × Text) → Handler (Server W L)
  answer (inl err) req s = fail err req s
  answer (inr (content_type, body)) req s = record {
    ops =
        set_header (codes "Content-Type") content_type
        ∷ set_header (codes "Cache-Control") (codes "private, max-age=3600")
        ∷ write_header 200
        ∷ write (bytes body)
        ∷ [];
    returned = true;
    after = s;
  }

  -- The handler once the URL has been accepted.
  unfoldable pub proxy : Images W → Target → Handler (Server W L)
  unfolding fail checked
  proxy c target req s =
      if not (c.is_request target.text)
      then fail (structured (invalid (codes "image URL is malformed"))) req s
      else let (outcome, w) = c.send s.service.world target.text in
        elim outcome [
          | inl err ↦ fail (structured (upstream_unavailable (cause err))) req (in_world w s)
          | inr resp ↦ answer (checked c.media_type resp) req (in_world w s)
        ]

  -- (*imageHandler).handle
  unfoldable pub handle_image : Images W → Handler (Server W L)
  unfolding fail proxy
  handle_image c req s =
      let refusal =
        fail (structured (invalid (codes "image URL must use https://media.licdn.com"))) req s in
      elim (c.parse_url (req.query (codes "url"))) [
        | none ↦ refusal
        | some target ↦ if accepted_host target then proxy c target req s else refusal
      ]
