-- ===== src/Ocsp/Responder/Laws.antt =====
-- Which responders a checker may ask.
use go_web_eid.Common.{
  true, ◌≡◌, ap, ◌↔◌, ◌⊎◌, inl, inr, none, some, List, [], ◌∷◌, arith, Any, Option-cases,
  Bool-cases, List-cases,
}
use go_web_eid.Go.Text.{Text, Unicode, text_eq_iff}
use go_web_eid.Go.Url.{ParseUrl}
use go_web_eid.Exceptions.{GoError, error_code, ocsp_request_failed, Result, ok, err}
use go_web_eid.Certificate.X509.{Certificate}
use go_web_eid.Ocsp.Options.{Designated, any_equal, supports, Checker}
use go_web_eid.Ocsp.Responder.{
  aia_ocsp_url, is_responder_allowed, Resolved, from_aia, resolve_responder,
}
use go_web_eid.Ocsp.Responder.Allowed.{Names, is_responder_allowed_iff}

-- The configuration of a designated responder has no list of issuers, or one with a certificate of
-- the issuer's bytes.
abbrev pub Supports : Designated → Certificate → Type 0
Supports d issuer = (d.supported_issuers ≡ []) ⊎ Any (λ ca. ca.raw ≡ issuer.raw) d.supported_issuers

any_equal_iff :
    (issuer : Certificate) (cas : List Certificate)
    → (any_equal issuer cas ≡ true) ↔ Any (λ ca. ca.raw ≡ issuer.raw) cas
unfolding any_equal
any_equal_iff issuer [] = (λ h. cc, λ h. elim h [ ])
any_equal_iff issuer (ca ∷ cas) =
    ground (arith, text_eq_iff ca.raw issuer.raw, any_equal_iff issuer cas)

supports_iff :
    (d : Designated) (issuer : Certificate) → (supports d issuer ≡ true) ↔ Supports d issuer
unfolding supports
supports_iff d issuer = elim (List-cases d.supported_issuers) [
  | inl empty ↦ (λ h. inl empty, λ h. ground arith)
  | inr (ca, cas, listed) ↦ (
    λ h. inr ((any_equal_iff issuer d.supported_issuers).0 (ground arith)),
    λ h. elim h [
      | inl empty ↦ cc
      | inr named ↦ ground (arith, (any_equal_iff issuer d.supported_issuers).1 named)
    ],
  )
]

-- The first URL of the certificate's OCSP responders.
abbrev pub FirstUrl : Certificate → Text → Type 0
FirstUrl cert url = (rest : List Text) × (cert.ocsp_server ≡ url ∷ rest)

aia_ocsp_url-FirstUrl :
    (cert : Certificate) (url : Text) → aia_ocsp_url cert ≡ ok url → FirstUrl cert url
unfolding aia_ocsp_url
aia_ocsp_url-FirstUrl cert url h = elim (List-cases cert.ocsp_server) [
  | inl empty ↦ absurd (ground arith)
  | inr (first, rest, listed) ↦ (rest, ground arith)
]

module _ (u : Unicode) (parse : ParseUrl) where
  from_aia-allowed :
      (c : Checker) (o : Result Text) (r : Resolved)
      → from_aia u parse c o ≡ ok r
      → (o ≡ ok r.0)
        × (r.1 ≡ none)
        × ((c.allowed_responder_urls ≡ []) ⊎ Any (Names u parse r.0) c.allowed_responder_urls)
  from_aia-allowed c (err e) r h = cc
  from_aia-allowed c (ok url) r h =
      elim (Bool-cases (is_responder_allowed u parse c.allowed_responder_urls url)) [
        | inr denied ↦ absurd (ground arith)
        | inl allowed ↦
            let same : url ≡ r.0 = ground arith in
            (
              ap ok same,
              ground arith,
              (is_responder_allowed_iff u parse c.allowed_responder_urls r.0).0
                  (rw (← same) allowed),
            )
      ]

  from_aia-error :
      (c : Checker) (o : Result Text) (e : GoError)
      → from_aia u parse c o ≡ err e
      → error_code e ≡ some ocsp_request_failed
  from_aia-error c o e h = ground arith

  pub resolve_responder-error :
      (c : Checker) (cert issuer : Certificate) (e : GoError)
      → resolve_responder u parse c cert issuer ≡ err e
      → error_code e ≡ some ocsp_request_failed
  unfolding resolve_responder
  resolve_responder-error c cert issuer e h = ground (arith, from_aia-error c (aia_ocsp_url cert) e)

  -- A checker asks the designated responder, if one is set and it supports the issuer, and takes
  -- the responder's certificate of that configuration; or else the first URL of the certificate,
  -- with no certificate of a responder, and that only if the allowlist is empty or names it.
  pub resolve_responder_allowed :
      (c : Checker) (cert issuer : Certificate) (r : Resolved)
      → resolve_responder u parse c cert issuer ≡ ok r
      → ((d : Designated) × (c.designated ≡ some d)
          × Supports d issuer
          × (r.0 ≡ d.url)
          × (r.1 ≡ d.responder_certificate))
        ⊎ (((c.designated ≡ none)
              ⊎ ((d : Designated) × (c.designated ≡ some d) × (¬ Supports d issuer)))
            × FirstUrl cert r.0
            × (r.1 ≡ none)
            × ((c.allowed_responder_urls ≡ []) ⊎ Any (Names u parse r.0) c.allowed_responder_urls))
  unfolding resolve_responder
  resolve_responder_allowed c cert issuer r h = elim (Option-cases c.designated) [
    | inl absent ↦
        let (first, own, allowed) = from_aia-allowed c (aia_ocsp_url cert) r (ground arith) in
        inr (inl absent, aia_ocsp_url-FirstUrl cert r.0 first, own, allowed)
    | inr (d, set) ↦ elim (Bool-cases (supports d issuer)) [
      | inl covered ↦ inl (d, set, (supports_iff d issuer).0 covered, ground arith, ground arith)
      | inr foreign ↦
          let (first, own, allowed) = from_aia-allowed c (aia_ocsp_url cert) r (ground arith) in
          inr (
            inr (d, set, λ covered. ground (arith, (supports_iff d issuer).1 covered)),
            aia_ocsp_url-FirstUrl cert r.0 first,
            own,
            allowed,
          )
    ]
  ]
