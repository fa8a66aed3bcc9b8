-- ===== src/Tests/Routes.antt =====
-- A handler on the small platform, from its construction to a login.
use go_web_eid.Common.{true, false, ◌≡◌, refl, inl, inr, none, some, List, [], ◌∷◌, ℕ}
use go_web_eid.Go.Text.{
  codes, text_eq, trim_suffix, to_lower, trim_space, trim_prefix, ends_with, contains_byte,
}
use go_web_eid.Go.Time.{minutes, seconds}
use go_web_eid.Exceptions.{plain, ok, err}
use go_web_eid.Certificate.Trust.{
  TrustStore, load_certificates_from_pem, parse_blocks, new_trust_snapshot, fill_pool,
  new_runtime_trust_store,
}
use go_web_eid.Certificate.Trust
use go_web_eid.Validator.Builder
use go_web_eid.Validator.Origin.{normalize_origin, normalize_url}
use go_web_eid.Certificate.Policy.{parse_oids}
use go_web_eid.Signing.Signer.{new_signer, check_preference}
use go_web_eid.Signing.HashFunction.{is_supported_hash_function, contains_text}
use go_web_eid.Nonce.Generator
use go_web_eid.Certificate.Checks.{default_disallowed_policies}
use go_web_eid.Nonce.Store.{ChallengeNonceStore}
use go_web_eid.Nonce.Generator.{Random}
use go_web_eid.Ocsp.Options.{Transport}
use go_web_eid.Assertion.Jwks.{Points}
use go_web_eid.Handler.Configuration.{Configuration}
use go_web_eid.Handler.Session.{Context, Http, ensure_session, origin_hostnames, host_matches}
use go_web_eid.Handler.Settings.{
  NewOption, default_settings, apply_options, new_session_store, nonce_store,
}
use go_web_eid.Handler.Trust.{Os, load_trusted_cas}
use go_web_eid.Handler.Build.{
  Handler, new, new_from, build_validator, validator_builder, designated_config,
}
use go_web_eid.Handler.Build.Laws.{IsBuilt, new-IsBuilt}
use go_web_eid.Handler.Build.Reload.{Reloaded, reload_all, reload_trust_lem}
use go_web_eid.Handler.Session.Laws.{ensure_session_iff, session_kept}
use go_web_eid.Handler.Routes.Issued.{InSession}
use go_web_eid.Tests.World.{platform, site, card, base64, base64-IsCodec, unicode, parse_url}

-- One file that is read as one certificate block.
abbrev pub os : Os
os = record {
  is_dir = λ path. ok false;
  files = record {
    blocks = λ bs. record { is_certificate = true; bytes = 1 ∷ [] } ∷ [];
    entries = λ path. ok [];
    read = λ path. ok [];
  };
  is = λ e f. false;
  err_not_exist = plain "file does not exist";
}

abbrev pub transport : Transport
transport url request timeout = ok (200, [])

-- No store was supplied.
abbrev pub ops : ChallengeNonceStore Context (Unit {0})
ops = record {
  put = λ s ctx now n. (ok tt, s);
  get_and_remove = λ s ctx now. (err (plain "none"), s);
}

abbrev pub points : Points ℕ
points = record { point = λ k. ok (4 ∷ []); bit_size = λ k. 256; parse = λ bs. ok 1 }

abbrev pub random : Random
random n = ok (5 ∷ 6 ∷ [])

abbrev pub cfg : Configuration
cfg = record {
  origins = site ∷ [];
  trusted_ca_certs_path = codes "cas";
  nonce_ttl = minutes 5;
  ocsp_enabled = false;
  ocsp_request_timeout = seconds 5;
  designated_ocsp_url = [];
  ocsp_nonce_disabled_urls = [];
  session_cookie_name = codes "S";
  signing_hash_preference = codes "SHA-256" ∷ [];
  allow_insecure_localhost = false;
  enforce_host_header = true;
  ocsp_allowed_responder_urls = [];
  disallowed_policy_oids = [];
  signing_accepted_policy_oids = [];
}

abbrev pub options : List (NewOption ℕ ℕ (Unit {0}))
options = []

abbrev pub cas : TrustStore
cas = record { address = 0; snap = record { intermediates = card ∷ []; pool = card ∷ [] } }

abbrev pub handler : Handler ℕ ℕ (Unit {0})
handler = record {
  config = cfg;
  settings = default_settings cfg;
  trust = cas;
  validator = record {
    origins = site ∷ [];
    trust = cas;
    ocsp_checker = none;
    disallowed_policies = default_disallowed_policies;
  };
  signer = record {
    hash_preference = codes "SHA-256" ∷ [];
    trust = some cas;
    ocsp_checker = none;
    accepted_policies = [];
  };
  generator = record { store = nonce_store ops; nonce_size = 32; random = random };
}

pub built : new platform os transport ops random (some cfg) options ≡ ok handler
unfolding new new_from load_trusted_cas load_certificates_from_pem parse_blocks text_eq Trust.reload
    new_trust_snapshot fill_pool new_runtime_trust_store build_validator validator_builder
    designated_config Builder.build Generator.build default_settings new_session_store apply_options
    Builder.without_user_certificate_revocation_check_with_ocsp
    Builder.with_allowed_ocsp_responder_urls Builder.with_nonce_disabled_ocsp_urls
    Builder.with_ocsp_request_timeout Builder.with_trust_store Builder.with_site_origins
    Builder.new_auth_token_validator_builder Builder.normalize_origins normalize_origin
    normalize_url parse_oids new_signer is_supported_hash_function contains_text
    Generator.with_nonce_ttl Generator.with_challenge_nonce_store trim_suffix Generator.new_builder
    check_preference
built = refl

new-IsBuilt_example : IsBuilt platform os transport ops random cfg (default_settings cfg) handler
unfolding apply_options
new-IsBuilt_example = new-IsBuilt platform os transport ops random cfg options handler built

reload_trust_lem_example : Reloaded platform os (reload_all platform handler (os ∷ []))
reload_trust_lem_example =
    reload_trust_lem platform os transport ops random cfg options handler (os ∷ []) os built

abbrev pub http : Http
http = record { host = codes "A.lv:443"; cookie = codes "s"; random = λ n. ok [] }

ensure_session_iff_example :
    ensure_session base64 unicode parse_url cfg http ≡ ok (record { id = codes "s"; cookie = none })
unfolding origin_hostnames host_matches text_eq to_lower trim_space trim_suffix trim_prefix
    ends_with contains_byte
ensure_session_iff_example =
    (ensure_session_iff base64 unicode parse_url cfg http
        (record { id = codes "s"; cookie = none })).1
      (inr (inr (inl refl)), inl ((λ e. cc, refl), refl))

session_kept_example :
    ensure_session base64 unicode parse_url cfg (record http { host = codes "a.lv" })
    ≡ ok (record { id = codes "s"; cookie = none })
unfolding origin_hostnames host_matches text_eq to_lower trim_space trim_suffix trim_prefix
session_kept_example =
    session_kept base64 unicode parse_url cfg http (record http { host = codes "a.lv" })
      (record { id = codes "s"; cookie = none }) base64-IsCodec ensure_session_iff_example (λ e. cc)
      refl (inr (inr (inl refl)))

-- The same session, as the handlers see it.
pub in_session : InSession platform cfg http (codes "s")
unfolding origin_hostnames host_matches text_eq to_lower trim_space trim_suffix trim_prefix
    ends_with contains_byte
in_session = (
  none,
  (ensure_session_iff base64 unicode parse_url cfg http
        (record { id = codes "s"; cookie = none })).1
      (inr (inr (inl refl)), inl ((λ e. cc, refl), refl)),
)
