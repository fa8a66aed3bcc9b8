-- ===== src/Validator/Builder.antt =====
-- validator_options.go: the builder of a validator. The clock is an argument of each call of the
-- validator, see Validate.
pub mod Laws
use go_web_eid.Common.{
  ℕ, Bool, true, false, not, Option, none, some, List, [], ◌∷◌, ◌++◌, is_empty, if◌then◌else◌,
}
use go_web_eid.Go.Text.{Text, Unicode}
use go_web_eid.Go.Time.{Duration, seconds, minutes}
use go_web_eid.Go.Url.{ParseUrl}
use go_web_eid.Exceptions.{plain, Result, ok, err, ◌>>=◌}
use go_web_eid.Certificate.X509.{Oid, Certificate}
use go_web_eid.Certificate.Checks.{default_disallowed_policies}
use go_web_eid.Certificate.Trust.{TrustStore, new_trust_store}
use go_web_eid.Ocsp.Options.{Client, Transport, Designated, Options, Checker, new_checker}
use go_web_eid.Nonce.Memory.{is_unset}
use go_web_eid.Validator.Origin.{err_origin_required, normalize_origin}
use go_web_eid.Validator.Validate.{Validator}

-- AuthTokenValidatorBuilder; a trust store that was not set is nil.
pub record Builder : Type 0 where
  pub origins : List Text
  pub allow_insecure_localhost : Bool
  pub trusted_cas : List Certificate
  pub trust_store : Option TrustStore
  pub ocsp_enabled : Bool
  pub ocsp_client : Option Client
  pub ocsp_request_timeout : Duration
  pub designated_ocsp : Option Designated
  pub nonce_disabled_ocsp_url : List Text
  pub allowed_ocsp_urls : List Text
  pub ocsp_skew : Duration
  pub ocsp_max_this_update_age : Duration
  pub disallowed_policies : List Oid

-- NewAuthTokenValidatorBuilder
unfoldable pub new_auth_token_validator_builder : Builder
new_auth_token_validator_builder = record {
  origins = [];
  allow_insecure_localhost = false;
  trusted_cas = [];
  trust_store = none;
  ocsp_enabled = true;
  ocsp_client = none;
  ocsp_request_timeout = seconds 5;
  designated_ocsp = none;
  nonce_disabled_ocsp_url = [];
  allowed_ocsp_urls = [];
  ocsp_skew = minutes 15;
  ocsp_max_this_update_age = minutes 2;
  disallowed_policies = default_disallowed_policies;
}

-- WithSiteOrigin, WithSiteOrigins
unfoldable pub with_site_origins : List Text → Builder → Builder
with_site_origins origins b = record b { origins = b.origins ++ origins }

-- WithAllowInsecureLocalhostOrigin
unfoldable pub with_allow_insecure_localhost_origin : Builder → Builder
with_allow_insecure_localhost_origin b = record b { allow_insecure_localhost = true }

-- WithTrustedCertificateAuthorities
unfoldable pub with_trusted_certificate_authorities : List Certificate → Builder → Builder
with_trusted_certificate_authorities cas b = record b { trusted_cas = b.trusted_cas ++ cas }

-- WithTrustStore
unfoldable pub with_trust_store : TrustStore → Builder → Builder
with_trust_store ts b = record b { trust_store = some ts }

-- WithoutUserCertificateRevocationCheckWithOcsp
unfoldable pub without_user_certificate_revocation_check_with_ocsp : Builder → Builder
without_user_certificate_revocation_check_with_ocsp b = record b { ocsp_enabled = false }

-- WithDesignatedOcspServiceConfiguration
unfoldable pub with_designated_ocsp_service_configuration : Option Designated → Builder → Builder
with_designated_ocsp_service_configuration cfg b = record b { designated_ocsp = cfg }

-- WithOcspClient
unfoldable pub with_ocsp_client : Option Client → Builder → Builder
with_ocsp_client c b = record b { ocsp_client = c }

-- WithOcspRequestTimeout: a duration that is not positive leaves the setting.
unfoldable pub with_ocsp_request_timeout : Duration → Builder → Builder
with_ocsp_request_timeout d b = if is_unset d then b else record b { ocsp_request_timeout = d }

-- WithDisallowedCertificatePolicies
unfoldable pub with_disallowed_certificate_policies : List Oid → Builder → Builder
with_disallowed_certificate_policies oids b = record b { disallowed_policies = oids }

-- WithNonceDisabledOcspUrls
unfoldable pub with_nonce_disabled_ocsp_urls : List Text → Builder → Builder
with_nonce_disabled_ocsp_urls urls b = record b {
  nonce_disabled_ocsp_url = b.nonce_disabled_ocsp_url ++ urls;
}

-- WithAllowedOcspResponderURLs
unfoldable pub with_allowed_ocsp_responder_urls : List Text → Builder → Builder
with_allowed_ocsp_responder_urls urls b = record b {
  allowed_ocsp_urls = b.allowed_ocsp_urls ++ urls;
}

-- WithAllowedOcspResponseTimeSkew
unfoldable pub with_allowed_ocsp_response_time_skew : Duration → Builder → Builder
with_allowed_ocsp_response_time_skew d b = if is_unset d then b else record b { ocsp_skew = d }

-- WithMaxOcspResponseThisUpdateAge
unfoldable pub with_max_ocsp_response_this_update_age : Duration → Builder → Builder
with_max_ocsp_response_this_update_age d b =
    if is_unset d then b else record b { ocsp_max_this_update_age = d }

-- The options that Build hands to NewChecker.
unfoldable pub checker_options : Builder → Options
checker_options b = record {
  client = b.ocsp_client;
  request_timeout = b.ocsp_request_timeout;
  designated = b.designated_ocsp;
  nonce_disabled_urls = b.nonce_disabled_ocsp_url;
  allowed_responder_urls = b.allowed_ocsp_urls;
  allowed_response_time_skew = b.ocsp_skew;
  max_response_this_update_age = b.ocsp_max_this_update_age;
}

-- The trust store of Build: the one that was supplied, or a new one of the certificates, at the
-- address given.
abbrev pub trust_of : ℕ → Option TrustStore → List Certificate → Result TrustStore
trust_of address none cas = new_trust_store address cas
trust_of address (some ts) [] = ok ts
trust_of address (some ts) (ca ∷ cas) =
    err (plain "use either WithTrustStore or WithTrustedCertificateAuthorities, not both")

module _ (u : Unicode) (parse : ParseUrl) where
  -- The loop of Build over the origins.
  unfoldable pub normalize_origins : List Text → Bool → Result (List Text)
  normalize_origins [] allow = ok []
  normalize_origins (o ∷ os) allow =
      let rest = normalize_origins os allow in
      do n ← normalize_origin u parse o allow; ns ← rest; ok (n ∷ ns)

  -- Build, over the default OCSP transport; a new trust store is allocated at the address.
  unfoldable pub build : Transport → ℕ → Builder → Result Validator
  unfolding checker_options
  build transport address b = if is_empty b.origins then err err_origin_required else do
    normalized_origins ← normalize_origins b.origins b.allow_insecure_localhost
    trust ← trust_of address b.trust_store b.trusted_cas
    ok (record {
      origins = normalized_origins;
      trust = trust;
      ocsp_checker =
          if b.ocsp_enabled then some (new_checker transport (checker_options b)) else none;
      disallowed_policies = b.disallowed_policies;
    })
