-- ===== src/Tests/Handlers.antt =====
-- Requests to the handlers on the small platform.
use go_web_eid.Common.{true, false, ◌≡◌, refl, ◌⊎◌, [], ◌∷◌}
use go_web_eid.Go.Text.{codes, text_eq, has_prefix}
use go_web_eid.Go.BigInt.{set_bytes}
use go_web_eid.Exceptions.{ok}
use go_web_eid.Certificate.Policy.{check_same_natural_person}
use go_web_eid.Signing.SigningCertificate.{parse_signing_certificate}
use go_web_eid.Signing.SignatureValue.{verify_signature_value}
use go_web_eid.Signing.Signer
use go_web_eid.Handler.Finalize.{
  FinalizeRequest, FinalizeResponse, verified_finalize, flags, finalize,
}
use go_web_eid.Handler.Finalize.Laws.{IsChecked, finalize_verified}
use go_web_eid.Tests.World.{platform}

abbrev request : FinalizeRequest
request = record {
  signature = 103 ∷ 107 ∷ [];
  signature_algorithm = record {
    crypto_algorithm = codes "ECC";
    hash_function = codes "SHA-256";
    padding_scheme = [];
  };
  auth_certificate = 101 ∷ [];
  digest = 101 ∷ 102 ∷ 103 ∷ [];
  signing_certificate = 101 ∷ [];
}

abbrev response : FinalizeResponse
response = record {
  status = codes "ok";
  signature = 103 ∷ 107 ∷ [];
  auth_certificate = 101 ∷ [];
  signature_verified = true;
  identity_bound = true;
}

finalized : finalize platform (ok request) ≡ ok response
unfolding finalize flags verified_finalize Signer.finalize parse_signing_certificate
    verify_signature_value check_same_natural_person text_eq has_prefix set_bytes
finalized = refl

finalize_verified_example :
    ((request.digest ≡ [])
      × (request.signing_certificate ≡ [])
      × (response.signature_verified ≡ false)
      × (response.identity_bound ≡ false))
    ⊎ ((response.signature_verified ≡ true) × IsChecked platform request response.identity_bound)
finalize_verified_example = finalize_verified platform request response finalized
