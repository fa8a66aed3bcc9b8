-- ===== src/Handler/Build/Shares.antt =====
-- The validator that New builds holds its trust store.
use go_web_eid.Common.{
  ◌≡◌, refl, ◌↔◌, Bool, true, false, Option, none, some, List, [], arith, if◌then◌else◌,
}
use go_web_eid.Exceptions.{ok, >>=-eq-ok, Result-cases}
use go_web_eid.Platform.{Platform}
use go_web_eid.Certificate.Policy.{parse_oids}
use go_web_eid.Certificate.Trust.{TrustStore}
use go_web_eid.Go.Time.{Duration}
use go_web_eid.Nonce.Memory.{is_unset}
use go_web_eid.Ocsp.Options.{Transport}
use go_web_eid.Validator.Validate.{Validator}
use go_web_eid.Handler.Configuration.{Configuration}
use go_web_eid.Go.Text.{Text, Unicode}
use go_web_eid.Go.Url.{ParseUrl}
use go_web_eid.Ocsp.Options.{Designated}
use go_web_eid.Validator.Builder.{
  Builder, build, with_allowed_ocsp_responder_urls, with_nonce_disabled_ocsp_urls, with_trust_store,
  with_site_origins, new_auth_token_validator_builder, with_allow_insecure_localhost_origin,
  with_ocsp_request_timeout, with_designated_ocsp_service_configuration,
  with_disallowed_certificate_policies, without_user_certificate_revocation_check_with_ocsp,
}
use go_web_eid.Validator.Builder.Laws.{build_iff}
use go_web_eid.Handler.Build.{
  designated_config, with_designated, with_policies, validator_builder, build_validator,
}

-- What a builder has of the trust store and of revocation checks.
abbrev Shares : TrustStore → Bool → Builder → Type 0
Shares ts checks b = (b.trust_store ≡ some ts) × (b.trusted_cas ≡ []) × (b.ocsp_enabled ≡ checks)

enabled_lem :
    (ts : TrustStore) (x : Bool) (b : Builder)
    → Shares ts true b
    → Shares ts x (if x then b else without_user_certificate_revocation_check_with_ocsp b)
unfolding without_user_certificate_revocation_check_with_ocsp
enabled_lem ts true b h = h
enabled_lem ts false b (h, k, l) = (h, k, refl)

Shares-designated :
    (ts : TrustStore) (checks : Bool) (o : Option Designated) (b : Builder)
    → Shares ts checks b
    → Shares ts checks (with_designated o b)
unfolding with_designated_ocsp_service_configuration
Shares-designated ts checks none b h = h
Shares-designated ts checks (some d) b h = h

Shares-build :
    (u : Unicode) (parse : ParseUrl) (transport : Transport) (ts : TrustStore) (checks : Bool)
    (b : Builder) (v : Validator)
    → Shares ts checks b
    → build u parse transport 1 b ≡ ok v
    → (v.trust ≡ ts) × ((v.ocsp_checker ≡ none) ↔ (checks ≡ false))
Shares-build u parse transport ts checks b v (supplied, no_cas, enabled) h =
    let (some_origin, normal, trusted, policies, checker) =
      (build_iff u parse transport 1 b v).0 h in
    ground arith

Shares-if :
    (ts : TrustStore) (x : Bool) (b c : Builder)
    → Shares ts true b
    → Shares ts true c
    → Shares ts true (if x then b else c)
Shares-if ts true b c h k = h
Shares-if ts false b c h k = k

Shares-timeout :
    (ts : TrustStore) (d : Duration) (b : Builder)
    → Shares ts true b
    → Shares ts true (with_ocsp_request_timeout d b)
unfolding with_ocsp_request_timeout
Shares-timeout ts d b h = Shares-if ts (is_unset d) b (record b { ocsp_request_timeout = d }) h h

Shares-builder : (cfg : Configuration) (ts : TrustStore) → Shares ts true (validator_builder cfg ts)
unfolding validator_builder with_allowed_ocsp_responder_urls with_nonce_disabled_ocsp_urls
    with_trust_store with_site_origins new_auth_token_validator_builder
    with_allow_insecure_localhost_origin
Shares-builder cfg ts =
    let timed =
      Shares-timeout ts cfg.ocsp_request_timeout
        (with_trust_store ts (with_site_origins cfg.origins new_auth_token_validator_builder))
        (refl, refl, refl) in
    Shares-if ts cfg.allow_insecure_localhost _ _ timed timed

Shares-policies :
    (u : Unicode) (ts : TrustStore) (values : List Text) (b c : Builder)
    → Shares ts true b
    → with_policies u values b ≡ ok c
    → Shares ts true c
unfolding with_disallowed_certificate_policies
Shares-policies u ts values b c h e = ground (arith, Result-cases (parse_oids u values))

module _ (p : Platform) (transport : Transport) where
  pub validator_lem :
      (cfg : Configuration) (ts : TrustStore) (v : Validator)
      → build_validator p transport cfg ts ≡ ok v
      → (v.trust ≡ ts) × ((v.ocsp_checker ≡ none) ↔ (cfg.ocsp_enabled ≡ false))
  unfolding build_validator
  validator_lem cfg ts v h =
      let (b, policies, built) =
        >>=-eq-ok (with_policies p.unicode cfg.disallowed_policy_oids (validator_builder cfg ts)) _
          h in
      let shared =
        Shares-policies p.unicode ts cfg.disallowed_policy_oids (validator_builder cfg ts) b
          (Shares-builder cfg ts) policies in
      Shares-build p.unicode p.parse_url transport ts cfg.ocsp_enabled _ v
        (Shares-designated ts cfg.ocsp_enabled (designated_config cfg) _
          (enabled_lem ts cfg.ocsp_enabled b shared))
        built
