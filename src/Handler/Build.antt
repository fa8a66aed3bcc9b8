-- ===== src/Handler/Build.antt =====
-- azugo/handler.go: a handler, its construction, and the reload of its trusted set. The handler,
-- its validator and its signer each have a pointer to a trust store; the store that the handler
-- points at is kept in its field `trust`, as it now is.
pub mod Laws
pub mod Reload
pub mod Shares
use go_web_eid.Common.{
  ℕ, ◌==◌, Bool, false, Option, none, some, List, [], is_empty, if◌then◌else◌, pos, length,
}
use mathlib.Core.Option.{map}
use go_web_eid.Go.Text.{Text, Unicode}
use go_web_eid.Exceptions.{plain, Result, ok, err, ◌>>=◌}
use go_web_eid.Certificate.X509.{Oid, Certificate}
use go_web_eid.Certificate.Policy.{parse_oids}
use go_web_eid.Certificate.Trust.{TrustStore, reload}
use go_web_eid.Platform.{Platform}
use go_web_eid.Nonce.Store.{ChallengeNonceStore}
use go_web_eid.Nonce.Generator.{
  Random, Generator, new_builder, with_challenge_nonce_store, with_nonce_ttl,
}
use go_web_eid.Nonce.Generator
use go_web_eid.Ocsp.Options.{
  Client, Transport, Designated, Options, Checker, http_client, new_checker,
}
use go_web_eid.Validator.Validate.{Validator}
use go_web_eid.Validator.Builder.{
  new_auth_token_validator_builder, with_site_origins, with_trust_store, with_ocsp_request_timeout,
  with_nonce_disabled_ocsp_urls, with_allowed_ocsp_responder_urls,
  with_allow_insecure_localhost_origin, with_disallowed_certificate_policies,
  without_user_certificate_revocation_check_with_ocsp, with_designated_ocsp_service_configuration,
}
use go_web_eid.Validator.Builder
use go_web_eid.Signing.Signer.{Signer, new_signer}
use go_web_eid.Handler.Configuration.{Configuration}
use go_web_eid.Handler.Session.{Context}
use go_web_eid.Handler.Settings.{
  Nonces, nonce_store, Settings, NewOption, default_settings, apply_options,
}
use go_web_eid.Handler.Trust.{Os, load_trusted_cas, empty_trust_source, initial_trust}

-- designatedConfig
unfoldable pub designated_config : Configuration → Option Designated
designated_config cfg =
    if is_empty cfg.designated_ocsp_url
    then none
    else some (record {
      url = cfg.designated_ocsp_url;
      responder_certificate = none;
      supported_issuers = [];
      nonce_disabled = false;
    })

abbrev pub with_designated : Option Designated → Builder.Builder → Builder.Builder
with_designated none b = b
with_designated (some d) b = with_designated_ocsp_service_configuration (some d) b

abbrev pub client_over : Option Transport → Option Client
client_over none = none
client_over (some rt) = some (http_client rt)

-- The options of the signer's OCSP checker.
unfoldable pub signer_ocsp_options : Configuration → Option Transport → Options
signer_ocsp_options cfg rt = record {
  client = client_over rt;
  request_timeout = cfg.ocsp_request_timeout;
  designated = designated_config cfg;
  nonce_disabled_urls = cfg.ocsp_nonce_disabled_urls;
  allowed_responder_urls = cfg.ocsp_allowed_responder_urls;
  allowed_response_time_skew = pos 0;
  max_response_this_update_age = pos 0;
}

-- The store behind a pointer, given the one store that changes.
abbrev pub pointed_at : TrustStore → TrustStore → TrustStore
pointed_at current held = if held.address == current.address then current else held

-- Handler
pub record Handler (Private Public S : Type 0) : Type 0 where
  pub config : Configuration
  pub settings : Settings Private Public S
  pub trust : TrustStore
  pub validator : Validator
  pub signer : Signer
  pub generator : Generator Context (Nonces S)

-- The builder of buildValidator before its policies are set.
unfoldable pub validator_builder : Configuration → TrustStore → Builder.Builder
validator_builder cfg trust =
    let b = with_allowed_ocsp_responder_urls cfg.ocsp_allowed_responder_urls (
      with_nonce_disabled_ocsp_urls cfg.ocsp_nonce_disabled_urls (
        with_ocsp_request_timeout cfg.ocsp_request_timeout (
          with_trust_store trust
            (with_site_origins cfg.origins new_auth_token_validator_builder)))) in
    if cfg.allow_insecure_localhost then with_allow_insecure_localhost_origin b else b

abbrev pub with_policies : Unicode → List Text → Builder.Builder → Result Builder.Builder
with_policies u values b =
    if is_empty values
    then ok b
    else do oids ← parse_oids u values; ok (with_disallowed_certificate_policies oids b)

module _ (p : Platform) (transport : Transport) where
  -- buildValidator
  unfoldable pub build_validator : Configuration → TrustStore → Result Validator
  unfolding validator_builder designated_config
  build_validator cfg trust = do
    b ← with_policies p.unicode cfg.disallowed_policy_oids (validator_builder cfg trust)
    let c = if cfg.ocsp_enabled then b else without_user_certificate_revocation_check_with_ocsp b
    Builder.build p.unicode p.parse_url transport 1 (with_designated (designated_config cfg) c)

module _ (p : Platform) (os : Os) (transport : Transport) {Private Public S : Type 0}
    (ops : ChallengeNonceStore Context S) (random : Random) where
  -- New, after the options.
  unfoldable pub new_from :
      Configuration → Settings Private Public S → Result (Handler Private Public S)
  unfolding build_validator signer_ocsp_options load_trusted_cas empty_trust_source
  new_from cfg h = do
    trust ←
        initial_trust (empty_trust_source p.x509 os) h.runtime_trust
          (load_trusted_cas p.x509 os cfg.trusted_ca_certs_path)
    validator ← build_validator p transport cfg trust
    accepted ← parse_oids p.unicode cfg.signing_accepted_policy_oids
    signer ← new_signer (record {
      hash_preference = cfg.signing_hash_preference;
      trust = some trust;
      ocsp_checker =
          if cfg.ocsp_enabled
          then some (new_checker transport (signer_ocsp_options cfg h.ocsp_transport))
          else none;
      accepted_policies = accepted;
    })
    generator ← Generator.build (
        with_nonce_ttl cfg.nonce_ttl
          (with_challenge_nonce_store (some (nonce_store ops)) (new_builder random)))
    ok (record {
      config = cfg;
      settings = h;
      trust = trust;
      validator = validator;
      signer = signer;
      generator = generator;
    })

  -- New
  unfoldable pub new :
      Option Configuration → List (NewOption Private Public S) → Result (Handler Private Public S)
  unfolding new_from
  new none opts = err (plain "webeid: configuration is required")
  new (some cfg) opts = new_from cfg (apply_options opts (default_settings cfg))

module _ (p : Platform) (os : Os) {Private Public S : Type 0} where
  abbrev after_reload :
      Handler Private Public S
      → List Certificate
      → Result (Unit {0}) × TrustStore
      → Result ℕ × Handler Private Public S
  after_reload h cas (err e, ts) = (err e, record h { trust = ts })
  after_reload h cas (ok _, ts) = (ok (length cas), record h { trust = ts })

  abbrev reload_loaded :
      Handler Private Public S → Result (List Certificate) → Result ℕ × Handler Private Public S
  reload_loaded h (err e) = (err e, h)
  reload_loaded h (ok cas) = after_reload h cas (reload h.trust cas)

  -- ReloadTrust
  unfoldable pub reload_trust : Handler Private Public S → Result ℕ × Handler Private Public S
  unfolding load_trusted_cas
  reload_trust h = reload_loaded h (load_trusted_cas p.x509 os h.config.trusted_ca_certs_path)

module _ {Private Public S : Type 0} where
  -- What the validator and the signer check with: a store at the handler's address is the
  -- handler's, as it now is; any other is as it was when they were built.
  unfoldable pub validator_of : Handler Private Public S → Validator
  validator_of h = record h.validator { trust = pointed_at h.trust h.validator.trust }

  unfoldable pub signer_of : Handler Private Public S → Signer
  signer_of h = record h.signer { trust = map (pointed_at h.trust) h.signer.trust }
