-- ===== src/Signing/Signer/Laws.antt =====
-- What a prepared signing has established.
use go_web_eid.Common.{
  true, ◌≡◌, ◌≢◌, refl, ◌↔◌, subst, inl, inr, Option, none, some, List, [], ◌∷◌, arith, All,
  Option-cases,
}
use go_web_eid.Go.Text.{Text, Bytes}
use go_web_eid.Go.Time.{Time}
use go_web_eid.Exceptions.{ok, >>=-eq-ok, Result-cases}
use go_web_eid.Certificate.X509.{Certificate}
use go_web_eid.Certificate.Checks.{check_validity, check_key_usage_for_signing}
use go_web_eid.Certificate.Policy.{check_accepted_policies}
use go_web_eid.Certificate.Trust.{TrustStore, issuer_of}
use go_web_eid.Certificate.Trust
use go_web_eid.Ocsp.Options.{Checker}
use go_web_eid.Ocsp.Check.{check}
use go_web_eid.Platform.{Platform}
use go_web_eid.Validator.Validate.{Moment}
use go_web_eid.Signing.HashFunction.{
  SignatureAlgorithm, is_supported_hash_function, select_hash_function, pick_algorithm_for_hash,
}
use go_web_eid.Signing.SigningCertificate.{parse_signing_certificate, validate_signing_certificate}
use go_web_eid.Signing.Signer.{Signer, check_preference, new_signer, check_trust, prepare_signing}

check_preference_iff :
    (hs : List Text)
    → (check_preference hs ≡ ok tt) ↔ All (λ h. is_supported_hash_function h ≡ true) hs
unfolding check_preference
check_preference_iff [] = (λ h. tt, λ h. refl)
check_preference_iff (h ∷ hs) = ground (arith, check_preference_iff hs)

-- NewSigner answers a signer exactly if there is a preference and every one is a supported hash
-- function; the signer has the options as they are.
pub new_signer_iff :
    (opts s : Signer)
    → (new_signer opts ≡ ok s) ↔ (
        (opts.hash_preference ≢ [])
        × All (λ h. is_supported_hash_function h ≡ true) opts.hash_preference
        × (s ≡ opts))
unfolding new_signer
new_signer_iff opts s = ground (
  arith,
  check_preference_iff opts.hash_preference,
  Result-cases (check_preference opts.hash_preference),
)

module _ (p : Platform) where
  -- The certificate chains to the trusted set, if there is one, and was then checked as not
  -- revoked with its issuer, if there is a checker.
  abbrev pub IsTrusted : Option TrustStore → Option Checker → Certificate → Moment → Type 0
  IsTrusted none o cert m = Unit {0}
  IsTrusted (some ts) none cert m = Trust.verify p.x509 ts cert m.now [] ≡ ok tt
  IsTrusted (some ts) (some c) cert m =
      (Trust.verify p.x509 ts cert m.now [] ≡ ok tt)
      × ((issuer : Certificate) × (issuer_of p.x509 ts cert ≡ some issuer)
          × (check p.ocsp p.unicode p.parse_url c cert issuer m.drawn m.ocsp_now ≡ ok tt))

  check_trust_iff :
      (trust : Option TrustStore) (o : Option Checker) (cert : Certificate) (m : Moment)
      → (check_trust p trust o cert m ≡ ok tt) ↔ IsTrusted trust o cert m
  unfolding check_trust
  check_trust_iff none o cert m = (λ h. tt, λ h. refl)
  check_trust_iff (some ts) none cert m =
      ground (arith, Result-cases (Trust.verify p.x509 ts cert m.now []))
  check_trust_iff (some ts) (some c) cert m =
      elim (Result-cases (Trust.verify p.x509 ts cert m.now [])) [
        | inl (_, trusted) ↦ elim (Option-cases (issuer_of p.x509 ts cert)) [
          | inl absent ↦
              (λ h. absurd (ground arith), λ (k, (i, found, checked)). absurd (ground arith))
          | inr (i, found) ↦
              (λ h. (trusted, (i, found, ground arith)), λ (k, (j, same, checked)). ground arith)
        ]
        | inr (e, failed) ↦
            (λ h. absurd (ground arith), λ (k, (j, same, checked)). absurd (ground arith))
      ]

  validate_signing_certificate_iff :
      (cert : Certificate) (now : Time)
      → (validate_signing_certificate cert now ≡ ok tt)
        ↔ ((check_validity cert now ≡ ok tt) × (check_key_usage_for_signing cert ≡ ok tt))
  unfolding validate_signing_certificate
  validate_signing_certificate_iff cert now = ground (arith, Result-cases (check_validity cert now))

  -- What PrepareSigning has established of what it answers.
  pub record IsPrepared (s : Signer) (m : Moment) (der : Bytes)
      (supported : List SignatureAlgorithm) (cert : Certificate) (algo : SignatureAlgorithm)
      (hash_fn : Text) : Type 0 where
    pub parsed : p.x509.parse der ≡ ok cert
    pub valid : check_validity cert m.now ≡ ok tt
    pub purpose : check_key_usage_for_signing cert ≡ ok tt
    pub policies : check_accepted_policies p.x509 cert s.accepted_policies ≡ ok tt
    pub trusted : IsTrusted s.trust s.ocsp_checker cert m
    pub selected : select_hash_function p.unicode s.hash_preference supported ≡ ok hash_fn
    pub picked : algo ≡ pick_algorithm_for_hash p.unicode hash_fn supported

  prepare_sound :
      (s : Signer) (m : Moment) (der : Bytes) (supported : List SignatureAlgorithm)
      (cert : Certificate) (algo : SignatureAlgorithm) (hash_fn : Text)
      → prepare_signing p s m der supported ≡ ok (cert, algo, hash_fn)
      → IsPrepared s m der supported cert algo hash_fn
  unfolding prepare_signing parse_signing_certificate
  prepare_sound s m der supported cert algo hash_fn h =
      let (c, parsed, h1) = >>=-eq-ok (parse_signing_certificate p.x509 der) _ h in
      let (_, structural, h2) = >>=-eq-ok (validate_signing_certificate c m.now) _ h1 in
      let (_, policies, h3) =
        >>=-eq-ok (check_accepted_policies p.x509 c s.accepted_policies) _ h2 in
      let (_, trusted, h4) = >>=-eq-ok (check_trust p s.trust s.ocsp_checker c m) _ h3 in
      let (f, selected, h5) =
        >>=-eq-ok (select_hash_function p.unicode s.hash_preference supported) _ h4 in
      let same_cert : c ≡ cert = ground arith in
      let same_hash : f ≡ hash_fn = ground arith in
      let (valid, purpose) = (validate_signing_certificate_iff c m.now).0 structural in
      record {
        parsed = ground (arith, Result-cases (p.x509.parse der));
        valid = ground arith;
        purpose = ground arith;
        policies = ground arith;
        trusted =
            subst (λ d. IsTrusted s.trust s.ocsp_checker d m) same_cert
              ((check_trust_iff s.trust s.ocsp_checker c m).0 trusted);
        selected = ground arith;
        picked = ground arith;
      }

  -- PrepareSigning answers a certificate, an algorithm and a hash function exactly if the
  -- certificate is the one that was sent, lies within its validity period, is fit for signing,
  -- has an accepted policy where some are set, chains to the trusted set and is not revoked as far
  -- as a trust store and a checker are set, the hash function is the one that is selected of the
  -- preferences and the offer, and the algorithm the one that is picked for it.
  pub prepare_signing_iff :
      (s : Signer) (m : Moment) (der : Bytes) (supported : List SignatureAlgorithm)
      (cert : Certificate) (algo : SignatureAlgorithm) (hash_fn : Text)
      → (prepare_signing p s m der supported ≡ ok (cert, algo, hash_fn))
        ↔ IsPrepared s m der supported cert algo hash_fn
  unfolding prepare_signing parse_signing_certificate
  prepare_signing_iff s m der supported cert algo hash_fn = (
    prepare_sound s m der supported cert algo hash_fn,
    λ a. rw (
      a.parsed,
      (validate_signing_certificate_iff cert m.now).1 (a.valid, a.purpose),
      a.policies,
      (check_trust_iff s.trust s.ocsp_checker cert m).1 a.trusted,
      a.selected,
      a.picked,
    ),
  )
