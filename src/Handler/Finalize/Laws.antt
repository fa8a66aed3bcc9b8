-- ===== src/Handler/Finalize/Laws.antt =====
-- What the flags of a finalize response mean.
use go_web_eid.Common.{Bool, true, false, ◌≡◌, sym, ap, subst, ◌∙◌, ◌⊎◌, inl, inr, some, [], arith}
use go_web_eid.Go.Text.{Bytes, text_eq_iff}
use go_web_eid.Exceptions.{Result, ok, ◌>>=◌, ◌>>◌, >>=-eq-ok, Result-cases}
use go_web_eid.Certificate.X509.{Certificate}
use go_web_eid.Certificate.Policy.{check_same_natural_person}
use go_web_eid.Certificate.Policy.Laws.{IsNatural}
use go_web_eid.Platform.{Platform}
use go_web_eid.Signing.SigningCertificate.{as_cause, parse_signing_certificate}
use go_web_eid.Signing.SignatureValue.{verify_signature_value}
use go_web_eid.Signing.Signer
use go_web_eid.Handler.Finalize.{
  FinalizeRequest, FinalizeResponse, as_value_cause, bound_or_error, verified_finalize, flags,
  finalize,
}

module _ (p : Platform) where
  -- What a response with the flag `signature_verified` has established.
  pub record IsChecked (req : FinalizeRequest) (bound : Bool) : Type 0 where
    pub digest : Bytes
    pub digest_decoded : p.base64.decode_std req.digest ≡ ok digest
    pub signature : Bytes
    pub signature_decoded : p.base64.decode_std req.signature ≡ ok signature
    pub sign_der : Bytes
    pub sign_decoded : p.base64.decode_std req.signing_certificate ≡ ok sign_der
    pub sign_cert : Certificate
    pub sign_parsed : p.x509.parse sign_der ≡ ok sign_cert
    pub auth_der : Bytes
    pub auth_decoded : p.base64.decode_std req.auth_certificate ≡ ok auth_der
    pub auth_cert : Certificate
    pub auth_parsed : p.x509.parse auth_der ≡ ok auth_cert
    pub verified :
        verify_signature_value p.crypto p.unicode
          (some sign_cert)
          req.signature_algorithm
          digest
          signature
        ≡ ok tt
    pub same_person :
        ((bound ≡ true)
          × IsNatural auth_cert
          × IsNatural sign_cert
          × (auth_cert.subject.serial_number ≡ sign_cert.subject.serial_number))
        ⊎ ((bound ≡ false) × (¬ (IsNatural auth_cert × IsNatural sign_cert)))

  bound_lem :
      (a b : Certificate) (bound : Bool)
      → bound_or_error (check_same_natural_person (some a) (some b)) ≡ ok bound
      → ((bound ≡ true)
          × IsNatural a
          × IsNatural b
          × (a.subject.serial_number ≡ b.subject.serial_number))
        ⊎ ((bound ≡ false) × (¬ (IsNatural a × IsNatural b)))
  unfolding check_same_natural_person
  bound_lem a b bound h =
      ground (arith, text_eq_iff a.subject.serial_number b.subject.serial_number)

  as_cause-eq-ok {ℓ} : {A : Type ℓ} (r : Result A) (a : A) → as_cause r ≡ ok a → r ≡ ok a
  as_cause-eq-ok r a h = ground arith

  as_value_cause-eq-ok {ℓ} :
      {A : Type ℓ} (r : Result A) (a : A) → as_value_cause r ≡ ok a → r ≡ ok a
  as_value_cause-eq-ok r a h = ground arith

  parse_signing_certificate-eq-ok :
      (der : Bytes) (c : Certificate)
      → parse_signing_certificate p.x509 der ≡ ok c
      → p.x509.parse der ≡ ok c
  unfolding parse_signing_certificate
  parse_signing_certificate-eq-ok der c h = as_cause-eq-ok (p.x509.parse der) c h

  signer_finalize-eq-ok :
      (sig der : Bytes) (r : Certificate × Bytes)
      → Signer.finalize p sig der ≡ ok r
      → p.x509.parse der ≡ ok r.0
  unfolding Signer.finalize
  signer_finalize-eq-ok sig der r h = ground (arith, Result-cases (p.x509.parse der))

  flags-eq-ok :
      (req : FinalizeRequest) (sig : Bytes) (auth_cert : Certificate) (f : Bool × Bool)
      → flags p req sig auth_cert ≡ ok f
      → ((req.digest ≡ []) × (req.signing_certificate ≡ []) × (f.0 ≡ false) × (f.1 ≡ false))
        ⊎ (verified_finalize p req sig auth_cert ≡ ok f)
  unfolding flags
  flags-eq-ok req sig auth_cert f h = ground arith

  verified_finalize_sound :
      (req : FinalizeRequest) (sig auth_der : Bytes) (auth_cert : Certificate) (f : Bool × Bool)
      → p.base64.decode_std req.signature ≡ ok sig
      → p.base64.decode_std req.auth_certificate ≡ ok auth_der
      → p.x509.parse auth_der ≡ ok auth_cert
      → verified_finalize p req sig auth_cert ≡ ok f
      → (f.0 ≡ true) × IsChecked req f.1
  unfolding verified_finalize
  verified_finalize_sound req sig auth_der auth_cert f signature_decoded auth_decoded auth_parsed
        h =
      let (digest, digest_decoded, h1) =
        >>=-eq-ok (as_value_cause (p.base64.decode_std req.digest)) _ (both h) in
      let (der, sign_decoded, h2) =
        >>=-eq-ok (as_cause (p.base64.decode_std req.signing_certificate)) _ h1 in
      let (cert, parsed, h3) = >>=-eq-ok (parse_signing_certificate p.x509 der) _ h2 in
      let (_, verified, h4) =
        >>=-eq-ok
          (verify_signature_value p.crypto p.unicode (some cert) req.signature_algorithm digest sig)
          _ h3 in
      let (checked, bound, h5) =
        >>=-eq-ok (bound_or_error (check_same_natural_person (some auth_cert) (some cert))) _ h4 in
      let same : checked ≡ f.1 = ground arith in
      (
        ground arith,
        record {
          digest = digest;
          digest_decoded = as_value_cause-eq-ok _ digest digest_decoded;
          signature = sig;
          signature_decoded = signature_decoded;
          sign_der = der;
          sign_decoded = as_cause-eq-ok _ der sign_decoded;
          sign_cert = cert;
          sign_parsed = parse_signing_certificate-eq-ok der cert parsed;
          auth_der = auth_der;
          auth_decoded = auth_decoded;
          auth_cert = auth_cert;
          auth_parsed = auth_parsed;
          verified = ground arith;
          same_person = bound_lem auth_cert cert f.1 (bound ∙ ap ok same);
        },
      )
    where
      both :
          verified_finalize p req sig auth_cert ≡ ok f
          → (do
            digest ← as_value_cause (p.base64.decode_std req.digest)
            sign_der ← as_cause (p.base64.decode_std req.signing_certificate)
            sign_cert ← parse_signing_certificate p.x509 sign_der
            verify_signature_value p.crypto p.unicode
                (some sign_cert)
                req.signature_algorithm
                digest
                sig
            checked ← bound_or_error (check_same_natural_person (some auth_cert) (some sign_cert))
            ok (true, checked))
            ≡ ok f
      both g = ground arith

  -- A request that finalize answers either has neither a digest nor a signing certificate, and then
  -- both flags of the response are off; or the flag `signature_verified` is on, and the signature
  -- value verified against the digest with the signing certificate's key. In that case the flag
  -- `identity_bound` is on exactly if both certificates name natural persons, who are then the same
  -- person.
  pub finalize_verified :
      (req : FinalizeRequest) (resp : FinalizeResponse)
      → finalize p (ok req) ≡ ok resp
      → ((req.digest ≡ [])
          × (req.signing_certificate ≡ [])
          × (resp.signature_verified ≡ false)
          × (resp.identity_bound ≡ false))
        ⊎ ((resp.signature_verified ≡ true) × IsChecked req resp.identity_bound)
  unfolding finalize
  finalize_verified req resp h =
      let (sig, sig_decoded, h1) = >>=-eq-ok (as_cause (p.base64.decode_std req.signature)) _ h in
      let (der, auth_decoded, h2) =
        >>=-eq-ok (as_cause (p.base64.decode_std req.auth_certificate)) _ h1 in
      let (r, finalized, h3) = >>=-eq-ok (Signer.finalize p sig der) _ h2 in
      let (f, flagged, h4) = >>=-eq-ok (flags p req sig r.0) _ h3 in
      let first : f.0 ≡ resp.signature_verified = ground arith in
      let second : f.1 ≡ resp.identity_bound = ground arith in
      elim (flags-eq-ok req sig r.0 f flagged) [
        | inl (no_digest, no_certificate, off, unbound) ↦
            inl (no_digest, no_certificate, sym first ∙ off, sym second ∙ unbound)
        | inr checked ↦
            let (on, is_checked) =
              verified_finalize_sound req sig der r.0 f (as_cause-eq-ok _ sig sig_decoded)
                (as_cause-eq-ok _ der auth_decoded) (signer_finalize-eq-ok sig der r finalized)
                checked in
            inr (sym first ∙ on, subst (λ b. IsChecked req b) second is_checked)
      ]
