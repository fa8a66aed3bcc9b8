-- ===== src/Handler/Finalize.antt =====
-- azugo/routes.go: finalize, with the request and the response of azugo/dto.go. What reading the
-- body answers is an argument.
pub mod Laws
use go_web_eid.Common.{Bool, true, false, ◌||◌, Option, none, some, is_empty, if◌then◌else◌}
use go_web_eid.Go.Text.{Text, Bytes, codes}
use go_web_eid.Exceptions.{
  GoError, plain, Result, ok, err, wrap, ◌>>=◌, ◌>>◌, err_signing_certificate_invalid,
  err_signature_value_invalid,
}
use go_web_eid.Certificate.X509.{Certificate}
use go_web_eid.Certificate.Policy.{check_same_natural_person}
use go_web_eid.Platform.{Platform}
use go_web_eid.Signing.HashFunction.{SignatureAlgorithm}
use go_web_eid.Signing.SigningCertificate.{as_cause, parse_signing_certificate}
use go_web_eid.Signing.SignatureValue.{verify_signature_value}
use go_web_eid.Signing.Signer

abbrev err_verified_finalize_needs_both : GoError
err_verified_finalize_needs_both =
    plain "verified finalize requires both digest and signingCertificate"

-- FinalizeRequest
pub record FinalizeRequest : Type 0 where
  pub signature : Text
  pub signature_algorithm : SignatureAlgorithm
  pub auth_certificate : Text
  pub digest : Text
  pub signing_certificate : Text

-- FinalizeResponse
pub record FinalizeResponse : Type 0 where
  pub status : Text
  pub signature : Text
  pub auth_certificate : Text
  pub signature_verified : Bool
  pub identity_bound : Bool

abbrev pub as_value_cause {ℓ} : {A : Type ℓ} → Result A → Result A
as_value_cause (ok a) = ok a
as_value_cause (err e) = err (wrap err_signature_value_invalid e)

-- The answer of CheckSameNaturalPerson, with its error in front.
abbrev pub bound_or_error : Bool × Result (Unit {0}) → Result Bool
bound_or_error (checked, ok _) = ok checked
bound_or_error (checked, err e) = err e

module _ (p : Platform) where
  -- The verified finalize: the flags of the response, if every check passes.
  unfoldable pub verified_finalize : FinalizeRequest → Bytes → Certificate → Result (Bool × Bool)
  verified_finalize req sig auth_cert =
      if is_empty req.digest || is_empty req.signing_certificate
      then err (
          wrap err_signature_value_invalid
            (plain "verified finalize requires both digest and signingCertificate"))
      else do
        digest ← as_value_cause (p.base64.decode_std req.digest)
        sign_der ← as_cause (p.base64.decode_std req.signing_certificate)
        sign_cert ← parse_signing_certificate p.x509 sign_der
        verify_signature_value p.crypto p.unicode (some sign_cert) req.signature_algorithm digest
            sig
        checked ← bound_or_error (check_same_natural_person (some auth_cert) (some sign_cert))
        ok (true, checked)

  -- The flags of the response.
  unfoldable pub flags : FinalizeRequest → Bytes → Certificate → Result (Bool × Bool)
  flags req sig auth_cert =
      if is_empty req.digest
      then if is_empty req.signing_certificate
        then ok (false, false)
        else verified_finalize req sig auth_cert
      else verified_finalize req sig auth_cert

  -- finalize
  unfoldable pub finalize : Result FinalizeRequest → Result FinalizeResponse
  finalize body = do
    req ← body
    sig ← as_cause (p.base64.decode_std req.signature)
    auth_der ← as_cause (p.base64.decode_std req.auth_certificate)
    (auth_cert, signed) ← Signer.finalize p sig auth_der
    (sig_verified, identity_bound) ← flags req sig auth_cert
    ok (record {
      status = codes "ok";
      signature = p.base64.encode_std signed;
      auth_certificate = p.base64.encode_std auth_cert.raw;
      signature_verified = sig_verified;
      identity_bound = identity_bound;
    })
