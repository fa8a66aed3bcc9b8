-- ===== src/Tests/Authentication.antt =====
-- Tokens, origins, signatures, and the validator, on the small platform.
use go_web_eid.Common.{false, ◌≡◌, refl, inl, none, some, [], ◌∷◌, ◌++◌, pos}
use go_web_eid.Go.Text.{Text, codes, text_eq, cut_before, trim_suffix}
use go_web_eid.Go.Time.{before, after}
use go_web_eid.Go.Map.{lookup}
use go_web_eid.Go.Atoi.{atoi, digits, digits_from}
use go_web_eid.Go.BigInt.{set_bytes}
use go_web_eid.Exceptions.{ok, err, err_certificate_expired}
use go_web_eid.Certificate.Checks.{
  check_validity, check_key_usage_for_authentication, has_ext_key_usage, check_disallowed_policies,
  extract_policies, any_shared, default_disallowed_policies,
}
use go_web_eid.Certificate.Trust
use go_web_eid.Signature.Algorithm.{sha256, hash_for, is_supported_algorithm}
use go_web_eid.Signature.Verify.{split_p1363, verify_with_key}
use go_web_eid.Signature.Verify
use go_web_eid.Signature.Verify.Laws.{verify_iff}
use go_web_eid.Token.{AuthToken, parse, decode_certificate, decode_signature}
use go_web_eid.Token.Laws.{parse_lem}
use go_web_eid.Tests.Ocsp.{checked}
use go_web_eid.Validator.Origin.{normalize_origin}
use go_web_eid.Validator.Origin.Laws.{normalize_origin_iff}
use go_web_eid.Validator.Validate.{Validator, Moment, validate}
use go_web_eid.Validator.Validate.Laws.{validate_iff, IsAuthenticated}
use go_web_eid.Validator.Validate.Errors.{IsRefusal, validate-error}
use go_web_eid.Validator.Builder.{Builder, new_auth_token_validator_builder, build}
use go_web_eid.Validator.Builder.Laws.{build_iff}
use go_web_eid.Tests.World.{
  site, site_url, parse_url, unicode, card, x509, crypto, platform, ca, trust, policy, checker,
}

-- "https://a.lv" has 12 bytes, and the challenge 2.
abbrev pub token : AuthToken
token = record {
  unverified_certificate = 101 ∷ [];
  algorithm = codes "ES256";
  signature = 114 ∷ 107 ∷ [];
  format = codes "web-eid:1.0";
  app_version = [];
}

abbrev pub challenge : Text
challenge = codes "ab"

verify_iff_example :
    Verify.verify crypto card (codes "ES256") (site ++ challenge) (14 ∷ 7 ∷ []) ≡ ok tt
unfolding hash_for lookup text_eq set_bytes
verify_iff_example =
    (verify_iff crypto card (codes "ES256") (site ++ challenge) (14 ∷ 7 ∷ [])).1
      (sha256, refl, refl, (refl, refl))

parse_lem_example : parse (λ bs. ok token) (1 ∷ []) ≡ ok token
unfolding lookup text_eq is_supported_algorithm atoi digits digits_from cut_before
parse_lem_example = ((parse_lem (λ bs. ok token) (1 ∷ [])).0 token).1 (
  λ e. cc,
  refl,
  record {
    certificate = λ e. cc;
    signature = λ e. cc;
    algorithm = refl;
    version = codes "1.0";
    format = refl;
    major = refl;
  },
)

normalize_origin_iff_example : normalize_origin unicode parse_url site false ≡ ok site
unfolding trim_suffix text_eq
normalize_origin_iff_example =
    (normalize_origin_iff unicode parse_url site false site).1
      (site_url, refl, (inl refl, λ e. cc, inl refl, refl, refl), refl)

abbrev pub validator : Validator
validator = record {
  origins = codes "https://b.lv" ∷ site ∷ [];
  trust = trust;
  ocsp_checker = some (checker (1 ∷ []));
  disallowed_policies = default_disallowed_policies;
}

abbrev pub moment : Moment
moment = record { now = pos 50; ocsp_now = pos 50; drawn = ok (5 ∷ []) }

not_disallowed : check_disallowed_policies x509 card default_disallowed_policies ≡ ok tt
unfolding check_disallowed_policies extract_policies any_shared text_eq
not_disallowed = refl

pub authenticated : IsAuthenticated platform validator token moment challenge card
unfolding decode_certificate decode_signature text_eq hash_for lookup check_validity
    check_key_usage_for_authentication Trust.verify before after has_ext_key_usage Trust.issuer_of
    Verify.verify verify_with_key set_bytes
authenticated = record {
  der = 1 ∷ [];
  decoded = refl;
  parsed = refl;
  valid = refl;
  purpose = refl;
  policies = not_disallowed;
  trusted = refl;
  not_revoked = (ca, refl, checked);
  signed = (sha256, refl, refl, (14 ∷ 7 ∷ [], refl, inl refl));
  named = λ e. cc;
}

validate_iff_example : validate platform validator (some token) moment challenge ≡ ok card
validate_iff_example =
    (validate_iff platform validator token moment challenge card).1 (λ e. cc, authenticated)

-- A builder with one origin and a store, without revocation checks.
abbrev builder : Builder
builder = record new_auth_token_validator_builder {
  origins = site ∷ [];
  trust_store = some trust;
  ocsp_enabled = false;
  disallowed_policies = policy ∷ [];
}

abbrev built : Validator
built = record {
  origins = site ∷ [];
  trust = trust;
  ocsp_checker = none;
  disallowed_policies = policy ∷ [];
}

build_iff_example :
    build unicode parse_url (λ url request timeout. ok (200, [])) 1 builder ≡ ok built
unfolding new_auth_token_validator_builder
build_iff_example =
    (build_iff unicode parse_url (λ url request timeout. ok (200, [])) 1 builder built).1
      (λ e. cc, (normalize_origin_iff_example, tt), inl (refl, refl), refl, refl)

abbrev late : Moment
late = record moment { now = pos 95 }

expired : validate platform validator (some token) late challenge ≡ err err_certificate_expired
unfolding validate decode_certificate text_eq check_validity before after
expired = refl

validate-error_example : IsRefusal err_certificate_expired
validate-error_example =
    validate-error platform validator (some token) late challenge err_certificate_expired expired
