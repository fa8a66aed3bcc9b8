-- ===== src/Validator/Validate/Laws.antt =====
-- What it takes to be validated.
use go_web_eid.Common.{
  true, ◌≡◌, ◌≢◌, refl, subst, ◌↔◌, inl, inr, ◌++◌, Option, none, some, List, [], ◌∷◌, arith, Any,
  Option-cases,
}
use go_web_eid.Go.Text.{Text, Bytes}
use go_web_eid.Exceptions.{Result, ok, >>=-eq-ok, Result-cases}
use go_web_eid.Certificate.X509.{Certificate, ext_client_auth}
use go_web_eid.Certificate.Checks.{
  check_validity, check_key_usage_for_authentication, check_disallowed_policies,
}
use go_web_eid.Certificate.Trust.{TrustStore, issuer_of}
use go_web_eid.Certificate.Trust
use go_web_eid.Certificate.Subject.{subject_cn}
use go_web_eid.Signature.Algorithm.{Hash, hash_for}
use go_web_eid.Signature.Verify
use go_web_eid.Ocsp.Options.{Checker}
use go_web_eid.Ocsp.Check.{check}
use go_web_eid.Token.{AuthToken, or_malformed, decode_certificate, decode_signature}
use go_web_eid.Platform.{Platform}
use go_web_eid.Validator.Validate.{
  Validator, Moment, require_nonce, any_origin_signs, verify_hashed, verify_signature,
  check_revocation, validate,
}

module _ (p : Platform) where
  -- The decoded signature is one of the certificate's key over hash(origin) ‖ hash(challenge), for
  -- one of the origins.
  abbrev pub SignedFor : List Text → AuthToken → Certificate → Text → Type 0
  SignedFor origins t cert challenge =
      (h : Hash) × (hash_for t.algorithm ≡ some h)
      × (p.crypto.available h ≡ true)
      × ((sig : Bytes) × (decode_signature p.base64 t ≡ ok sig)
          × Any
              (λ origin.
                Verify.verify p.crypto cert t.algorithm
                  (p.crypto.sum h origin ++ p.crypto.sum h challenge) sig
                ≡ ok tt)
              origins)

  any_origin_signs_iff :
      (cert : Certificate) (algorithm : Text) (h : Hash) (nonce_hash sig : Bytes)
      (origins : List Text)
      → (any_origin_signs p cert algorithm h nonce_hash sig origins ≡ ok tt)
        ↔ Any
            (λ origin.
              Verify.verify p.crypto cert algorithm (p.crypto.sum h origin ++ nonce_hash) sig
              ≡ ok tt)
            origins
  unfolding any_origin_signs
  any_origin_signs_iff cert algorithm h nonce_hash sig [] = (λ e. cc, λ e. elim e [ ])
  any_origin_signs_iff cert algorithm h nonce_hash sig (origin ∷ origins) = ground (
    arith,
    any_origin_signs_iff cert algorithm h nonce_hash sig origins,
    Result-cases (Verify.verify p.crypto cert algorithm (p.crypto.sum h origin ++ nonce_hash) sig),
  )

  verify_hashed_iff :
      (origins : List Text) (t : AuthToken) (cert : Certificate) (challenge : Text) (h : Hash)
      → (verify_hashed p origins t cert challenge (some h) ≡ ok tt) ↔ (
          (p.crypto.available h ≡ true)
          × ((sig : Bytes) × (decode_signature p.base64 t ≡ ok sig)
              × (any_origin_signs p cert t.algorithm h (p.crypto.sum h challenge) sig origins
                  ≡ ok tt)))
  verify_hashed_iff origins t cert challenge h = elim (Result-cases (decode_signature p.base64 t)) [
    | inl (sig, e) ↦
        (λ k. (ground arith, (sig, e, ground arith)), λ (ready, (s, f, k)). ground arith)
    | inr (f, e) ↦ (λ k. absurd (ground arith), λ (ready, (s, g, k)). ground arith)
  ]

  verify_signature_iff :
      (origins : List Text) (t : AuthToken) (cert : Certificate) (challenge : Text)
      → (verify_signature p origins t cert challenge ≡ ok tt) ↔ SignedFor origins t cert challenge
  unfolding verify_signature
  verify_signature_iff origins t cert challenge = elim (Option-cases (hash_for t.algorithm)) [
    | inl unknown ↦ (λ k. absurd (ground arith), λ (h, known, _, _). absurd (ground arith))
    | inr (h, known) ↦ (
      λ k.
          let (ready, (sig, decoded, signs)) =
            (verify_hashed_iff origins t cert challenge h).0 (rw known at k) in
          (
            h,
            known,
            ready,
            (
              sig,
              decoded,
              (any_origin_signs_iff cert t.algorithm h (p.crypto.sum h challenge) sig origins).0
                  signs,
            ),
          ),
      λ (g, found, ready, (sig, decoded, signs)). rw found (
          (verify_hashed_iff origins t cert challenge g).1 (
            ready,
            (
              sig,
              decoded,
              (any_origin_signs_iff cert t.algorithm g (p.crypto.sum g challenge) sig origins).1
                  signs,
            ),
          )),
    )
  ]

  -- The certificate was checked as not revoked with its issuer, or checks are disabled.
  abbrev pub NotRevoked : TrustStore → Option Checker → Certificate → Moment → Type 0
  NotRevoked trust none cert m = Unit {0}
  NotRevoked trust (some c) cert m =
      (issuer : Certificate) × (issuer_of p.x509 trust cert ≡ some issuer)
      × (check p.ocsp p.unicode p.parse_url c cert issuer m.drawn m.ocsp_now ≡ ok tt)

  pub check_revocation_iff :
      (trust : TrustStore) (o : Option Checker) (cert : Certificate) (m : Moment)
      → (check_revocation p trust o cert m ≡ ok tt) ↔ NotRevoked trust o cert m
  unfolding check_revocation
  check_revocation_iff trust none cert m = (λ h. tt, λ h. refl)
  check_revocation_iff trust (some c) cert m = elim (Option-cases (issuer_of p.x509 trust cert)) [
    | inl absent ↦ (λ h. absurd (ground arith), λ (i, found, checked). absurd (ground arith))
    | inr (i, found) ↦ (λ h. (i, found, ground arith), λ (j, same, checked). ground arith)
  ]

  -- What Validate has established of a certificate that it answers.
  pub record IsAuthenticated (v : Validator) (t : AuthToken) (m : Moment) (challenge : Text)
      (cert : Certificate) : Type 0 where
    pub der : Bytes
    pub decoded : decode_certificate p.base64 t ≡ ok der
    pub parsed : p.x509.parse der ≡ ok cert
    pub valid : check_validity cert m.now ≡ ok tt
    pub purpose : check_key_usage_for_authentication cert ≡ ok tt
    pub policies : check_disallowed_policies p.x509 cert v.disallowed_policies ≡ ok tt
    pub trusted : Trust.verify p.x509 v.trust cert m.now (ext_client_auth ∷ []) ≡ ok tt
    pub not_revoked : NotRevoked v.trust v.ocsp_checker cert m
    pub signed : SignedFor v.origins t cert challenge
    pub named : cert.subject.common_name ≢ []

  require_nonce-ok : (challenge : Text) → (require_nonce challenge ≡ ok tt) ↔ (challenge ≢ [])
  require_nonce-ok challenge = ground arith

  common_name-ok :
      (cert : Certificate) (cn : Text)
      → or_malformed (subject_cn cert) ≡ ok cn
      → cert.subject.common_name ≢ []
  unfolding subject_cn
  common_name-ok cert cn h = ground arith

  common_name_of_ne :
      (cert : Certificate)
      → cert.subject.common_name ≢ []
      → subject_cn cert ≡ ok cert.subject.common_name
  unfolding subject_cn
  common_name_of_ne cert h = ground arith

  or_malformed-eq-ok {ℓ} : {A : Type ℓ} (r : Result A) (a : A) → or_malformed r ≡ ok a → r ≡ ok a
  or_malformed-eq-ok r a h = ground arith

  validate_sound :
      (v : Validator) (t : AuthToken) (m : Moment) (challenge : Text) (cert : Certificate)
      → validate p v (some t) m challenge ≡ ok cert
      → (challenge ≢ []) × IsAuthenticated v t m challenge cert
  unfolding validate
  validate_sound v t m challenge cert h =
      let (_, asked, h1) = >>=-eq-ok (require_nonce challenge) _ h in
      let (der, decoded, h2) = >>=-eq-ok _ _ h1 in
      let (c, parsed, h3) = >>=-eq-ok _ _ h2 in
      let (_, valid, h4) = >>=-eq-ok _ _ h3 in
      let (_, purpose, h5) = >>=-eq-ok _ _ h4 in
      let (_, policies, h6) = >>=-eq-ok _ _ h5 in
      let (_, trusted, h7) = >>=-eq-ok _ _ h6 in
      let (_, not_revoked, h8) = >>=-eq-ok _ _ h7 in
      let (_, signed, h9) = >>=-eq-ok _ _ h8 in
      let (cn, named, h10) = >>=-eq-ok _ _ h9 in
      let same : c ≡ cert = ground arith in
      (
        (require_nonce-ok challenge).0 asked,
        subst (IsAuthenticated v t m challenge) same (record {
          der = der;
          decoded = decoded;
          parsed = or_malformed-eq-ok (p.x509.parse der) c parsed;
          valid = valid;
          purpose = purpose;
          policies = policies;
          trusted = trusted;
          not_revoked = (check_revocation_iff v.trust v.ocsp_checker c m).0 not_revoked;
          signed = (verify_signature_iff v.origins t c challenge).0 signed;
          named = common_name-ok c cn named;
        }),
      )

  validate_complete :
      (v : Validator) (t : AuthToken) (m : Moment) (challenge : Text) (cert : Certificate)
      → challenge ≢ []
      → IsAuthenticated v t m challenge cert
      → validate p v (some t) m challenge ≡ ok cert
  unfolding validate
  validate_complete v t m challenge cert asked a = rw (
    (require_nonce-ok challenge).1 asked,
    a.decoded,
    a.parsed,
    a.valid,
    a.purpose,
    a.policies,
    a.trusted,
    (check_revocation_iff v.trust v.ocsp_checker cert m).1 a.not_revoked,
    (verify_signature_iff v.origins t cert challenge).1 a.signed,
    common_name_of_ne cert a.named,
  )

  -- Validate answers a certificate exactly if the challenge nonce is not empty and the token's
  -- certificate is that one, lies within its validity period, is fit for authentication, has no
  -- disallowed policy, chains to the trusted set for client authentication, is not revoked, unless
  -- revocation checks are disabled, has a common name, and the token's signature is one of its key
  -- over hash(origin) ‖ hash(challenge) for a configured origin.
  pub validate_iff :
      (v : Validator) (t : AuthToken) (m : Moment) (challenge : Text) (cert : Certificate)
      → (validate p v (some t) m challenge ≡ ok cert)
        ↔ ((challenge ≢ []) × IsAuthenticated v t m challenge cert)
  validate_iff v t m challenge cert = (
    validate_sound v t m challenge cert,
    λ (asked, a). validate_complete v t m challenge cert asked a,
  )
