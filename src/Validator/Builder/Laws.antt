-- ===== src/Validator/Builder/Laws.antt =====
-- What a built validator is configured with.
use go_web_eid.Common.{
  ℕ, Bool, ◌≡◌, ◌≢◌, ◌↔◌, Option, none, some, List, [], ◌∷◌, arith, Never, ◌⊎◌, inl, inr,
  if◌then◌else◌,
}
use go_web_eid.Go.Text.{Text, Unicode}
use go_web_eid.Go.Url.{ParseUrl}
use go_web_eid.Exceptions.{ok, Result-cases}
use go_web_eid.Certificate.X509.{Certificate}
use go_web_eid.Certificate.Trust.{TrustStore, new_trust_snapshot, new_trust_store}
use go_web_eid.Ocsp.Options.{Transport, new_checker}
use go_web_eid.Validator.Origin.{normalize_origin}
use go_web_eid.Validator.Validate.{Validator}
use go_web_eid.Validator.Builder.{Builder, checker_options, trust_of, normalize_origins, build}

-- The accepted origins, each in its normal form, in order.
abbrev pub Normalized : Unicode → ParseUrl → Bool → List Text → List Text → Type 0
Normalized u parse allow [] [] = Unit {0}
Normalized u parse allow (o ∷ os) (n ∷ ns) =
    (normalize_origin u parse o allow ≡ ok n) × Normalized u parse allow os ns
Normalized u parse allow _ _ = Never

normalize_origins_iff :
    (u : Unicode) (parse : ParseUrl) (os : List Text) (allow : Bool) (ns : List Text)
    → (normalize_origins u parse os allow ≡ ok ns) ↔ Normalized u parse allow os ns
unfolding normalize_origins
normalize_origins_iff u parse [] allow [] = ground arith
normalize_origins_iff u parse [] allow (n ∷ ns) = ground arith
normalize_origins_iff u parse (o ∷ os) allow [] =
    elim (Result-cases (normalize_origin u parse o allow)) [
      | inl (m, e) ↦ elim (Result-cases (normalize_origins u parse os allow)) [
        | inl (ms, f) ↦ (λ h. absurd (ground arith), λ k. absurd (elim k [ ]))
        | inr (x, f) ↦ (λ h. absurd (ground arith), λ k. absurd (elim k [ ]))
      ]
      | inr (x, e) ↦ (λ h. absurd (ground arith), λ k. absurd (elim k [ ]))
    ]
normalize_origins_iff u parse (o ∷ os) allow (n ∷ ns) =
    elim (Result-cases (normalize_origin u parse o allow)) [
      | inl (m, e) ↦ ground (
        arith,
        normalize_origins_iff u parse os allow ns,
        Result-cases (normalize_origins u parse os allow),
      )
      | inr (x, e) ↦ (λ h. absurd (ground arith), λ (k, l). ground arith)
    ]

-- The trust store that was supplied, with no certificates beside it, or one of the certificates,
-- of which there is one at least.
abbrev pub IsTrust : ℕ → Option TrustStore → List Certificate → TrustStore → Type 0
IsTrust address supplied cas ts =
    ((supplied ≡ some ts) × (cas ≡ []))
    ⊎ ((supplied ≡ none) × (cas ≢ []) × (ts.address ≡ address) × (ts.snap ≡ new_trust_snapshot cas))

trust_of_iff :
    (address : ℕ) (supplied : Option TrustStore) (cas : List Certificate) (ts : TrustStore)
    → (trust_of address supplied cas ≡ ok ts) ↔ IsTrust address supplied cas ts
unfolding new_trust_store
trust_of_iff a none [] ts = ground arith
trust_of_iff a none (c ∷ cs) ts = ground arith
trust_of_iff a (some s) [] ts = ground arith
trust_of_iff a (some s) (c ∷ cs) ts = ground arith

-- What Build made of the settings.
abbrev pub IsBuilt : Unicode → ParseUrl → Transport → ℕ → Builder → Validator → Type 0
IsBuilt u parse transport address b v =
    (b.origins ≢ [])
    × Normalized u parse b.allow_insecure_localhost b.origins v.origins
    × IsTrust address b.trust_store b.trusted_cas v.trust
    × (v.disallowed_policies ≡ b.disallowed_policies)
    × (v.ocsp_checker ≡ (
        if b.ocsp_enabled
        then some (
            new_checker transport (record {
              client = b.ocsp_client;
              request_timeout = b.ocsp_request_timeout;
              designated = b.designated_ocsp;
              nonce_disabled_urls = b.nonce_disabled_ocsp_url;
              allowed_responder_urls = b.allowed_ocsp_urls;
              allowed_response_time_skew = b.ocsp_skew;
              max_response_this_update_age = b.ocsp_max_this_update_age;
            }))
        else none))

-- Build answers a validator exactly if there is an origin, every origin is accepted, and either a
-- trust store was supplied or certificates, not both; the validator then has the normal forms of
-- the origins in order, that store or a new one of those certificates, the disallowed policies that
-- were set, and an OCSP checker of the settings exactly if revocation checks are enabled.
pub build_iff :
    (u : Unicode) (parse : ParseUrl) (transport : Transport) (address : ℕ) (b : Builder)
    (v : Validator)
    → (build u parse transport address b ≡ ok v) ↔ IsBuilt u parse transport address b v
unfolding build checker_options
build_iff u parse transport address b v =
    elim (Result-cases (normalize_origins u parse b.origins b.allow_insecure_localhost)) [
      | inl (ns, e) ↦ elim (Result-cases (trust_of address b.trust_store b.trusted_cas)) [
        | inl (ts, f) ↦ (
          λ h.
              let same_origins : ns ≡ v.origins = ground arith in
              let same_trust : ts ≡ v.trust = ground arith in
              (
                λ none_given. ground arith,
                (normalize_origins_iff u parse b.origins b.allow_insecure_localhost v.origins).0
                    (ground arith),
                (trust_of_iff address b.trust_store b.trusted_cas v.trust).0 (ground arith),
                ground arith,
                ground arith,
              ),
          λ (some_origin, normal, trusted, policies, checker). ground (
            arith,
            (normalize_origins_iff u parse b.origins b.allow_insecure_localhost v.origins).1 normal,
            (trust_of_iff address b.trust_store b.trusted_cas v.trust).1 trusted,
          ),
        )
        | inr (x, f) ↦ (
          λ h. absurd (ground arith),
          λ (some_origin, normal, trusted, k, l).
              ground (arith, (trust_of_iff address b.trust_store b.trusted_cas v.trust).1 trusted),
        )
      ]
      | inr (x, e) ↦ (
        λ h. absurd (ground arith),
        λ (some_origin, normal, k, l, m). ground (
          arith,
          (normalize_origins_iff u parse b.origins b.allow_insecure_localhost v.origins).1 normal,
        ),
      )
    ]
