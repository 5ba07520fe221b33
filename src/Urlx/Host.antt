-- ===== src/Urlx/Host.antt =====
-- internal/urlx/profile_url.go: the hosts that IsLinkedInHost accepts.
use linkedin_api.Base.{
  ◌≡◌, refl, ap, ◌∙◌, ◌⊎◌, inl, inr, true, some, [], ◌∷◌, ◌++◌, arith, ◌==◌, Bool-cases,
  Option-cases, Text, codes, text_eq_iff,
}
use linkedin_api.Base.{strip_prefix}
use mathlib.Core.Option.{some-injective}
use linkedin_api.Urlx.{is_domain, after_prefix, site_pattern, after_locale, host_pattern}

pub strip_prefix_lem : (p s r : Text) → strip_prefix p s ≡ some r → s ≡ p ++ r
unfolding strip_prefix
strip_prefix_lem [] s r h = some-injective s r h
strip_prefix_lem (a ∷ p) [] r h = cc
strip_prefix_lem (a ∷ p) (c ∷ s) r h = ground (arith, h, strip_prefix_lem p s r)

-- The domain itself, or labels and a dot before it.
pub record Within (host : Text) : Type 0 where
  pub labels : Text
  pub whole : host ≡ labels ++ codes "linkedin.com"
  pub dotted : (labels ≡ []) ⊎ ((l : Text) × (labels ≡ l ++ (b'.' ∷ [])))

append_assoc : (xs ys zs : Text) → xs ++ (ys ++ zs) ≡ (xs ++ ys) ++ zs
append_assoc [] ys zs = refl
append_assoc (x ∷ xs) ys zs = ap (λ l. x ∷ l) (append_assoc xs ys zs)

is_domain-Within : (s : Text) → is_domain s ≡ true → Within s
unfolding is_domain
is_domain-Within s h = record {
  labels = [];
  whole = (text_eq_iff s (codes "linkedin.com")).0 h;
  dotted = inl refl;
}

-- Labels that end in a dot may stand before a host that is within the domain.
prepend-Within : (l s host : Text) → host ≡ (l ++ (b'.' ∷ [])) ++ s → Within s → Within host
prepend-Within l s host e w = record {
  labels = (l ++ (b'.' ∷ [])) ++ w.labels;
  whole =
      e
      ∙ (ap (λ t. (l ++ (b'.' ∷ [])) ++ t) w.whole
          ∙ append_assoc (l ++ (b'.' ∷ [])) w.labels (codes "linkedin.com"));
  dotted = elim w.dotted [
    | inl q ↦ inr (l, rw q (append_nil (l ++ (b'.' ∷ []))))
    | inr (m, q) ↦
        inr ((l ++ (b'.' ∷ [])) ++ m, rw q (append_assoc (l ++ (b'.' ∷ [])) m (b'.' ∷ [])))
  ];
}
  where
    append_nil : (xs : Text) → xs ++ [] ≡ xs
    append_nil [] = refl
    append_nil (x ∷ xs) = ap (λ t. x ∷ t) (append_nil xs)

after_prefix-Within : (l s : Text) → after_prefix (l ++ (b'.' ∷ [])) is_domain s ≡ true → Within s
unfolding after_prefix
after_prefix-Within l s h = elim (Option-cases (strip_prefix (l ++ (b'.' ∷ [])) s)) [
  | inl e ↦ absurd (ground (arith, e, h))
  | inr (rest, e) ↦
      prepend-Within l rest s (strip_prefix_lem (l ++ (b'.' ∷ [])) s rest e)
        (is_domain-Within rest (ground (arith, e, h)))
]

site_pattern-Within : (s : Text) → site_pattern s ≡ true → Within s
unfolding site_pattern
site_pattern-Within s h = elim (Bool-cases (is_domain s)) [
  | inl e ↦ is_domain-Within s e
  | inr e ↦ elim (Bool-cases (after_prefix (codes "www.") is_domain s)) [
    | inl e' ↦ after_prefix-Within (codes "www") s e'
    | inr e' ↦ after_prefix-Within (codes "m") s (ground (arith, e, e', h))
  ]
]

after_locale_lem :
    (s rest : Text) → after_locale s ≡ some rest → (l : Text) × (s ≡ (l ++ (b'.' ∷ [])) ++ rest)
unfolding after_locale
after_locale_lem [] rest h = cc
after_locale_lem (a ∷ []) rest h = cc
after_locale_lem (a ∷ b ∷ []) rest h = cc
after_locale_lem (a ∷ b ∷ c ∷ []) rest h =
    let q : (c ≡ b'.') × ([] ≡ rest) = ground (arith, h) in (a ∷ b ∷ [], ground (arith, q))
after_locale_lem (a ∷ b ∷ c ∷ d ∷ s) rest h = elim (Bool-cases (c == b'.')) [
  | inl e ↦
      let q : (c ≡ b'.') × (d ∷ s ≡ rest) = ground (arith, h, e) in (a ∷ b ∷ [], ground (arith, q))
  | inr e ↦
      let q : (d ≡ b'.') × (s ≡ rest) = ground (arith, h, e) in (a ∷ b ∷ c ∷ [], ground (arith, q))
]

-- An accepted host is the domain, or the domain after a dot.
pub host_pattern-Within : (s : Text) → host_pattern s ≡ true → Within s
unfolding host_pattern
host_pattern-Within s h = elim (Bool-cases (site_pattern s)) [
  | inl e ↦ site_pattern-Within s e
  | inr e ↦ elim (Option-cases (after_locale s)) [
    | inl q ↦ absurd (ground (arith, e, q, h))
    | inr (rest, q) ↦
        let (l, w) = after_locale_lem s rest q in
        prepend-Within l rest s w (site_pattern-Within rest (ground (arith, e, q, h)))
  ]
]
