-- ===== src/Signing/Signer.antt =====
-- signing/signer.go: the signer. The clock, and the draw of the OCSP nonce, are arguments.
pub mod Laws
pub mod Loads
use go_web_eid.Common.{Bool, not, Option, none, some, List, [], ◌∷◌, is_empty, if◌then◌else◌}
use go_web_eid.Go.Text.{Text, Bytes}
use go_web_eid.Exceptions.{
  GoError, plain, Result, ok, err, wrap, ◌>>=◌, ◌>>◌, err_no_supported_hash_function,
  err_signing_certificate_invalid,
}
use go_web_eid.Certificate.X509.{Oid, Certificate}
use go_web_eid.Certificate.Policy.{check_accepted_policies}
use go_web_eid.Certificate.Trust.{TrustStore, issuer_of}
use go_web_eid.Certificate.Trust
use go_web_eid.Ocsp.Options.{Checker}
use go_web_eid.Ocsp.Check.{check}
use go_web_eid.Platform.{Platform}
use go_web_eid.Validator.Validate.{Moment}
use go_web_eid.Signing.HashFunction.{
  SignatureAlgorithm, is_supported_hash_function, select_hash_function, pick_algorithm_for_hash,
}
use go_web_eid.Signing.SigningCertificate.{
  replace_error, as_cause, parse_signing_certificate, validate_signing_certificate,
}

-- signing/errors.go
abbrev err_no_preference : GoError
err_no_preference = plain "hash preference list is empty"

abbrev pub err_empty_signature : GoError
err_empty_signature = plain "signature value is empty"

abbrev err_unknown_hash : GoError
err_unknown_hash = plain "unknown hash function"

-- Signer, and Options, which has the same fields.
pub record Signer : Type 0 where
  pub hash_preference : List Text
  pub trust : Option TrustStore
  pub ocsp_checker : Option Checker
  pub accepted_policies : List Oid

-- The loop of NewSigner over the preferences.
unfoldable pub check_preference : List Text → Result (Unit {0})
check_preference [] = ok tt
check_preference (h ∷ hs) =
    let rest = check_preference hs in
    if not (is_supported_hash_function h)
    then err (wrap err_no_supported_hash_function err_unknown_hash)
    else rest

-- NewSigner
unfoldable pub new_signer : Signer → Result Signer
unfolding check_preference
new_signer opts =
    if is_empty opts.hash_preference
    then err (wrap err_no_supported_hash_function err_no_preference)
    else do check_preference opts.hash_preference; ok opts

module _ (p : Platform) where
  abbrev pub check_issued : Checker → Certificate → Moment → Option Certificate → Result (Unit {0})
  check_issued c cert m none = err err_signing_certificate_invalid
  check_issued c cert m (some issuer) =
      check p.ocsp p.unicode p.parse_url c cert issuer m.drawn m.ocsp_now

  abbrev pub check_status : TrustStore → Option Checker → Certificate → Moment → Result (Unit {0})
  check_status ts none cert m = ok tt
  check_status ts (some c) cert m = check_issued c cert m (issuer_of p.x509 ts cert)

  -- The block of PrepareSigning under `s.trust != nil`.
  pub check_trust : Option TrustStore → Option Checker → Certificate → Moment → Result (Unit {0})
  check_trust none o cert m = ok tt
  check_trust (some ts) o cert m = do
    replace_error (Trust.verify p.x509 ts cert m.now [])
    check_status ts o cert m

  -- PrepareSigning
  pub prepare_signing :
      Signer
      → Moment
      → Bytes
      → List SignatureAlgorithm
      → Result (Certificate × SignatureAlgorithm × Text)
  unfolding check_trust
  prepare_signing s m signing_cert_der supported = do
    cert ← parse_signing_certificate p.x509 signing_cert_der
    validate_signing_certificate cert m.now
    check_accepted_policies p.x509 cert s.accepted_policies
    check_trust s.trust s.ocsp_checker cert m
    hash_fn ← select_hash_function p.unicode s.hash_preference supported
    ok (cert, pick_algorithm_for_hash p.unicode hash_fn supported, hash_fn)

  -- Finalize
  unfoldable pub finalize : Bytes → Bytes → Result (Certificate × Bytes)
  finalize signature_value auth_cert_der =
      if is_empty signature_value
      then err (wrap err_signing_certificate_invalid err_empty_signature)
      else do auth_cert ← as_cause (p.x509.parse auth_cert_der); ok (auth_cert, signature_value)
