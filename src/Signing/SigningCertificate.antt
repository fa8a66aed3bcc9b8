-- ===== src/Signing/SigningCertificate.antt =====
-- signing/certificate.go: decoding and structural checks of a signing certificate.
use go_web_eid.Go.Text.{Bytes}
use go_web_eid.Go.Time.{Time}
use go_web_eid.Exceptions.{Result, ok, err, wrap, ◌>>◌, err_signing_certificate_invalid}
use go_web_eid.Certificate.X509.{Certificate, X509}
use go_web_eid.Certificate.Checks.{check_validity, check_key_usage_for_signing}

-- An error that is replaced: its cause is not kept.
abbrev pub replace_error {ℓ} : {A : Type ℓ} → Result A → Result A
replace_error (ok a) = ok a
replace_error (err e) = err err_signing_certificate_invalid

-- An error that becomes the cause.
abbrev pub as_cause {ℓ} : {A : Type ℓ} → Result A → Result A
as_cause (ok a) = ok a
as_cause (err e) = err (wrap err_signing_certificate_invalid e)

-- ParseSigningCertificate
unfoldable pub parse_signing_certificate : X509 → Bytes → Result Certificate
parse_signing_certificate x der = as_cause (x.parse der)

-- validateSigningCertificate
unfoldable pub validate_signing_certificate : Certificate → Time → Result (Unit {0})
validate_signing_certificate cert now = do
  replace_error (check_validity cert now)
  check_key_usage_for_signing cert
