-- ===== src/Validator/Validate/Errors.antt =====
-- The errors of Validate.
use go_web_eid.Certificate.Subject.{subject_cn}
use go_web_eid.Common.{
  not, if◌then◌else◌, ◌≡◌, refl, subst, inl, inr, Bool, true, false, Option, none, some, List, [],
  ◌∷◌, arith, Any, Option-cases,
}
use go_web_eid.Go.Text.{Text, Bytes}
use go_web_eid.Exceptions.{
  Code, token_parse, token_unsupported_format, token_signature_invalid, challenge_nonce_not_found,
  certificate_expired, certificate_not_yet_valid, certificate_not_trusted, certificate_revoked,
  certificate_disallowed_policy, user_certificate_wrong_purpose, ocsp_request_failed, GoError,
  error_code, err_token_signature_invalid, Result, ok, err, ◌>>=◌, Result-cases,
}
use go_web_eid.Certificate.X509.{Certificate, ext_client_auth}
use go_web_eid.Certificate.Checks.{
  check_validity, check_key_usage_for_authentication, check_disallowed_policies, extract_policies,
}
use go_web_eid.Certificate.Trust.{TrustStore, issuer_of}
use go_web_eid.Certificate.Trust
use go_web_eid.Signature.Algorithm.{Hash, hash_for}
use go_web_eid.Ocsp.Options.{Checker}
use go_web_eid.Ocsp.Check.{check}
use go_web_eid.Ocsp.Check.Laws.{check-error}
use go_web_eid.Token.{AuthToken, or_malformed, decode_certificate, decode_signature}
use go_web_eid.Platform.{Platform}
use go_web_eid.Validator.Validate.{
  Validator, Moment, require_nonce, any_origin_signs, verify_hashed, verify_signature,
  check_revocation, validate,
}

-- The codes with which a token is refused.
abbrev pub refusals : List Code
refusals =
    token_parse ∷ challenge_nonce_not_found ∷ certificate_expired ∷ certificate_not_yet_valid
    ∷ user_certificate_wrong_purpose ∷ certificate_disallowed_policy ∷ certificate_not_trusted
    ∷ certificate_revoked ∷ ocsp_request_failed ∷ token_unsupported_format ∷ token_signature_invalid
    ∷ []

abbrev pub IsRefusal : GoError → Type 0
IsRefusal f = Any (λ c. error_code f ≡ some c) refusals

-- Every error of a call is a refusal.
abbrev Refuses {ℓ} : {A : Type ℓ} → Result A → Type ℓ
Refuses r = (f : GoError) → r ≡ err f → IsRefusal f

>>=-Refuses {ℓ κ} :
    {A : Type ℓ} {B : Type κ} (r : Result A) (next : A → Result B)
    → Refuses r
    → ((a : A) → Refuses (next a))
    → Refuses (r >>= next)
>>=-Refuses (err f) next h k g e =
    let same : f ≡ g = ground arith in subst IsRefusal same (h f refl)
>>=-Refuses (ok a) next h k g e = k a g e

if-Refuses {ℓ} :
    {A : Type ℓ} (x : Bool) (r r' : Result A)
    → Refuses r
    → Refuses r'
    → Refuses (if x then r else r')
if-Refuses true r r' h k = h
if-Refuses false r r' h k = k

or_malformed-Refuses {ℓ} : {A : Type ℓ} (r : Result A) → Refuses (or_malformed r)
or_malformed-Refuses r f h = ground arith

check_validity-Refuses : (cert : Certificate) (m : Moment) → Refuses (check_validity cert m.now)
unfolding check_validity
check_validity-Refuses cert m f h = ground arith

check_key_usage-Refuses : (cert : Certificate) → Refuses (check_key_usage_for_authentication cert)
unfolding check_key_usage_for_authentication
check_key_usage-Refuses cert f h = ground arith

module _ (p : Platform) where
  check_disallowed_policies-Refuses :
      (cert : Certificate) (v : Validator)
      → Refuses (check_disallowed_policies p.x509 cert v.disallowed_policies)
  unfolding check_disallowed_policies
  check_disallowed_policies-Refuses cert v f h =
      ground (arith, Result-cases (extract_policies p.x509 cert))

  verify-Refuses :
      (ts : TrustStore) (cert : Certificate) (m : Moment)
      → Refuses (Trust.verify p.x509 ts cert m.now (ext_client_auth ∷ []))
  unfolding Trust.verify
  verify-Refuses ts cert m f h = ground arith

  check-Refuses :
      (c : Checker) (cert issuer : Certificate) (m : Moment)
      → Refuses (check p.ocsp p.unicode p.parse_url c cert issuer m.drawn m.ocsp_now)
  check-Refuses c cert issuer m f h =
      elim (check-error p.ocsp p.unicode p.parse_url c cert issuer m.drawn m.ocsp_now f h) [
        | inl failed ↦ ground arith
        | inr (is_revoked, why) ↦ ground arith
      ]

  check_revocation-Refuses :
      (ts : TrustStore) (o : Option Checker) (cert : Certificate) (m : Moment)
      → Refuses (check_revocation p ts o cert m)
  unfolding check_revocation
  check_revocation-Refuses ts none cert m f h = absurd (ground arith)
  check_revocation-Refuses ts (some c) cert m f h = elim (Option-cases (issuer_of p.x509 ts cert)) [
    | inl absent ↦ ground arith
    | inr (issuer, found) ↦ check-Refuses c cert issuer m f (ground arith)
  ]

  any_origin_signs-Refuses :
      (cert : Certificate) (algorithm : Text) (h : Hash) (nonce_hash sig : Bytes)
      (origins : List Text)
      → Refuses (any_origin_signs p cert algorithm h nonce_hash sig origins)
  unfolding any_origin_signs
  any_origin_signs-Refuses cert algorithm h nonce_hash sig [] f e = ground arith
  any_origin_signs-Refuses cert algorithm h nonce_hash sig (o ∷ os) f e =
      ground (arith, any_origin_signs-Refuses cert algorithm h nonce_hash sig os f)

  verify_hashed-Refuses :
      (origins : List Text) (t : AuthToken) (cert : Certificate) (challenge : Text)
      (o : Option Hash)
      → Refuses (verify_hashed p origins t cert challenge o)
  unfolding decode_signature
  verify_hashed-Refuses origins t cert challenge none f h = ground arith
  verify_hashed-Refuses origins t cert challenge (some h) f e =
      if-Refuses (not (p.crypto.available h)) (err err_token_signature_invalid)
        (decode_signature p.base64 t >>= λ sig.
          any_origin_signs p cert t.algorithm h (p.crypto.sum h challenge) sig origins)
        (λ g k. ground arith)
        (>>=-Refuses (decode_signature p.base64 t) _
          (or_malformed-Refuses (p.base64.decode_std t.signature))
          (λ sig.
            any_origin_signs-Refuses cert t.algorithm h (p.crypto.sum h challenge) sig origins))
        f e

  -- Whatever Validate refuses, it answers a typed error with one of eleven codes, so that a client
  -- gets a status and a safe message.
  pub validate-error :
      (v : Validator) (token : Option AuthToken) (m : Moment) (challenge : Text) (f : GoError)
      → validate p v token m challenge ≡ err f
      → IsRefusal f
  unfolding validate decode_certificate verify_signature
  validate-error v none m challenge = λ f h. ground arith
  validate-error v (some t) m challenge =
      >>=-Refuses (require_nonce challenge) _ (λ f h. ground arith)
        (λ _.
          >>=-Refuses (decode_certificate p.base64 t) _
            (or_malformed-Refuses (p.base64.decode_std t.unverified_certificate))
            (λ der.
              >>=-Refuses (or_malformed (p.x509.parse der)) _
                (or_malformed-Refuses (p.x509.parse der))
                (λ cert.
                  >>=-Refuses (check_validity cert m.now) _ (check_validity-Refuses cert m) (λ _.
                    >>=-Refuses (check_key_usage_for_authentication cert) _
                      (check_key_usage-Refuses cert)
                      (λ _.
                        >>=-Refuses (check_disallowed_policies p.x509 cert v.disallowed_policies) _
                          (check_disallowed_policies-Refuses cert v)
                          (λ _.
                            >>=-Refuses
                              (Trust.verify p.x509 v.trust cert m.now (ext_client_auth ∷ [])) _
                              (verify-Refuses v.trust cert m)
                              (λ _.
                                >>=-Refuses (check_revocation p v.trust v.ocsp_checker cert m) _
                                  (check_revocation-Refuses v.trust v.ocsp_checker cert m)
                                  (λ _.
                                    >>=-Refuses (verify_signature p v.origins t cert challenge) _
                                      (verify_hashed-Refuses v.origins t cert challenge
                                        (hash_for t.algorithm))
                                      (λ _.
                                        >>=-Refuses (or_malformed (subject_cn cert)) _
                                          (or_malformed-Refuses (subject_cn cert))
                                          (λ cn f h. absurd (ground arith)))))))))))
