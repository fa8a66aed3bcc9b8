-- ===== src/Handler/Signing.antt =====
-- azugo/routes.go, with the request and the response of azugo/dto.go: the negotiation for a signing
-- certificate. What reading the body answers is an argument.
use go_web_eid.Common.{List}
use go_web_eid.Go.Text.{Text}
use go_web_eid.Exceptions.{Result, ok, ◌>>=◌}
use go_web_eid.Platform.{Platform}
use go_web_eid.Validator.Validate.{Moment}
use go_web_eid.Signing.HashFunction.{SignatureAlgorithm}
use go_web_eid.Signing.SigningCertificate.{as_cause}
use go_web_eid.Signing.Signer.{prepare_signing}
use go_web_eid.Handler.Build.{Handler, signer_of}

-- SigningCertificateRequest
pub record SigningCertificateRequest : Type 0 where
  pub certificate : Text
  pub supported_signature_algorithms : List SignatureAlgorithm

-- SigningCertificateResponse
pub record SigningCertificateResponse : Type 0 where
  pub signature_algorithm : SignatureAlgorithm
  pub hash_function : Text

-- signingCertificate
unfoldable pub signing_certificate :
    {Private Public S : Type 0}
    → Platform
    → Handler Private Public S
    → Result SigningCertificateRequest
    → Moment
    → Result SigningCertificateResponse
signing_certificate p h body m = do
  req ← body
  der ← as_cause (p.base64.decode_std req.certificate)
  (cert, algo, hash_fn) ← prepare_signing p (signer_of h) m der req.supported_signature_algorithms
  ok (record { signature_algorithm = algo; hash_function = hash_fn })
