-- ===== src/Signing/Signer/Loads.antt =====
-- signing/signer.go: PrepareSigning with its two loads of the trusted set apart: the chain is
-- verified against one, and the issuer for the revocation check is looked up in another.
use go_web_eid.Common.{◌≡◌, some, List, [], arith}
use go_web_eid.Go.Text.{Text, Bytes}
use go_web_eid.Exceptions.{Result, ok, ◌>>=◌, ◌>>◌}
use go_web_eid.Certificate.X509.{Certificate}
use go_web_eid.Certificate.Policy.{check_accepted_policies}
use go_web_eid.Certificate.Trust.{TrustStore}
use go_web_eid.Certificate.Trust
use go_web_eid.Platform.{Platform}
use go_web_eid.Validator.Validate.{Moment}
use go_web_eid.Signing.HashFunction.{
  SignatureAlgorithm, select_hash_function, pick_algorithm_for_hash,
}
use go_web_eid.Signing.SigningCertificate.{
  replace_error, parse_signing_certificate, validate_signing_certificate,
}
use go_web_eid.Signing.Signer.{Signer, check_status, check_trust, prepare_signing}

module _ (p : Platform) where
  -- PrepareSigning up to the first load: the signing certificate.
  unfoldable pub admitted : Signer → Moment → Bytes → Result Certificate
  admitted s m signing_cert_der = do
    cert ← parse_signing_certificate p.x509 signing_cert_der
    validate_signing_certificate cert m.now
    check_accepted_policies p.x509 cert s.accepted_policies
    ok cert

  -- The chain, by one set.
  abbrev pub chained : TrustStore → Certificate → Moment → Result (Unit {0})
  chained ts cert m = replace_error (Trust.verify p.x509 ts cert m.now [])

  -- PrepareSigning after the second load.
  unfoldable pub negotiated :
      Signer
      → Certificate
      → List SignatureAlgorithm
      → Result (Certificate × SignatureAlgorithm × Text)
  negotiated s cert supported = do
    hash_fn ← select_hash_function p.unicode s.hash_preference supported
    ok (cert, pick_algorithm_for_hash p.unicode hash_fn supported, hash_fn)

  -- PrepareSigning of a signer with a trust store, when the two loads find `ts` and `ts'`.
  unfoldable pub prepare_between :
      Signer
      → (ts ts' : TrustStore) → Moment
      → Bytes
      → List SignatureAlgorithm
      → Result (Certificate × SignatureAlgorithm × Text)
  prepare_between s ts ts' m signing_cert_der supported = do
    cert ← admitted s m signing_cert_der
    chained ts cert m
    check_status p ts' s.ocsp_checker cert m
    negotiated s cert supported

  -- With the same set twice it is PrepareSigning.
  pub prepare-between :
      (s : Signer) (ts : TrustStore) (m : Moment) (der : Bytes)
      (supported : List SignatureAlgorithm)
      → prepare_between s ts ts m der supported
        ≡ prepare_signing p (record s { trust = some ts }) m der supported
  unfolding prepare_signing check_trust prepare_between admitted negotiated
  prepare-between s ts m der supported = ground arith
