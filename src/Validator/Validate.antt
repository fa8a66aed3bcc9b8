-- ===== src/Validator/Validate.antt =====
-- validator.go: the validation pipeline. The clock, the entropy source and the challenge nonce are
-- arguments of a call.
pub mod Laws
pub mod Errors
pub mod Loads
use go_web_eid.Common.{Bool, not, ◌++◌, Option, none, some, List, [], ◌∷◌, if◌then◌else◌, is_empty}
use go_web_eid.Go.Text.{Text, Bytes}
use go_web_eid.Go.Time.{Time}
use go_web_eid.Exceptions.{
  Result, ok, err, ◌>>=◌, ◌>>◌, wrap, is_ok, err_token_parse, err_token_unsupported_format,
  err_token_signature_invalid, err_challenge_nonce_not_found, err_certificate_not_trusted,
}
use go_web_eid.Certificate.X509.{Oid, Certificate, ext_client_auth}
use go_web_eid.Certificate.Checks.{
  check_validity, check_key_usage_for_authentication, check_disallowed_policies,
}
use go_web_eid.Certificate.Trust.{TrustStore, issuer_of}
use go_web_eid.Certificate.Trust
use go_web_eid.Certificate.Subject.{subject_cn}
use go_web_eid.Signature.Algorithm.{Hash, hash_for}
use go_web_eid.Signature.Verify
use go_web_eid.Ocsp.Options.{Checker}
use go_web_eid.Ocsp.Check.{check}
use go_web_eid.Token.{
  AuthToken, err_empty_token, or_malformed, decode_certificate, decode_signature,
}
use go_web_eid.Platform.{Platform}

-- authTokenValidator; it has a checker exactly if revocation checks are enabled.
pub record Validator : Type 0 where
  pub origins : List Text
  pub trust : TrustStore
  pub ocsp_checker : Option Checker
  pub disallowed_policies : List Oid

-- What a call reads from outside: the time, the time of the OCSP check, and the OCSP nonce drawn.
pub record Moment : Type 0 where
  pub now : Time
  pub ocsp_now : Time
  pub drawn : Result Bytes

abbrev pub require_token : Option AuthToken → Result AuthToken
require_token none = err (wrap err_token_parse err_empty_token)
require_token (some t) = ok t

abbrev pub require_nonce : Text → Result (Unit {0})
require_nonce [] = err err_challenge_nonce_not_found
require_nonce (c ∷ s) = ok tt

module _ (p : Platform) where
  -- The loop of verifySignature over the origins: the first that verifies ends it.
  unfoldable pub any_origin_signs :
      Certificate → Text → Hash → (nonce_hash sig : Bytes) → List Text → Result (Unit {0})
  any_origin_signs cert algorithm h nonce_hash sig [] = err err_token_signature_invalid
  any_origin_signs cert algorithm h nonce_hash sig (origin ∷ origins) =
      let rest = any_origin_signs cert algorithm h nonce_hash sig origins in
      if is_ok (Verify.verify p.crypto cert algorithm (p.crypto.sum h origin ++ nonce_hash) sig)
      then ok tt
      else rest

  abbrev pub verify_hashed :
      List Text → AuthToken → Certificate → Text → Option Hash → Result (Unit {0})
  verify_hashed origins token cert challenge none = err err_token_unsupported_format
  verify_hashed origins token cert challenge (some h) =
      if not (p.crypto.available h) then err err_token_signature_invalid else do
        sig ← decode_signature p.base64 token
        any_origin_signs cert token.algorithm h (p.crypto.sum h challenge) sig origins

  -- verifySignature
  unfoldable pub verify_signature : List Text → AuthToken → Certificate → Text → Result (Unit {0})
  verify_signature origins token cert nonce =
      verify_hashed origins token cert nonce (hash_for token.algorithm)

  abbrev check_issued : Checker → Certificate → Moment → Option Certificate → Result (Unit {0})
  check_issued c cert m none = err err_certificate_not_trusted
  check_issued c cert m (some issuer) =
      check p.ocsp p.unicode p.parse_url c cert issuer m.drawn m.ocsp_now

  -- Step 6 of Validate.
  unfoldable pub check_revocation :
      TrustStore → Option Checker → Certificate → Moment → Result (Unit {0})
  check_revocation trust none cert m = ok tt
  check_revocation trust (some c) cert m = check_issued c cert m (issuer_of p.x509 trust cert)

  -- Validate
  unfoldable pub validate : Validator → Option AuthToken → Moment → Text → Result Certificate
  validate v token m current_challenge_nonce = do
    t ← require_token token
    require_nonce current_challenge_nonce
    der ← decode_certificate p.base64 t
    cert ← or_malformed (p.x509.parse der)
    check_validity cert m.now
    check_key_usage_for_authentication cert
    check_disallowed_policies p.x509 cert v.disallowed_policies
    Trust.verify p.x509 v.trust cert m.now (ext_client_auth ∷ [])
    check_revocation v.trust v.ocsp_checker cert m
    verify_signature v.origins t cert current_challenge_nonce
    cn ← or_malformed (subject_cn cert)
    ok cert
