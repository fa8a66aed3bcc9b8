-- ===== src/Validator/Validate/Loads.antt =====
-- validator.go: Validate with its two loads of the trusted set apart. The chain is verified against
-- one load of it, and the issuer for the revocation check is looked up in another, so a reload of
-- the trusted set may lie between them.
use go_web_eid.Common.{◌≡◌, ◌↔◌, ◌≢◌, Option, none, some, [], ◌∷◌, arith}
use go_web_eid.Go.Text.{Text}
use go_web_eid.Exceptions.{Result, ok, ◌>>=◌, ◌>>◌}
use go_web_eid.Certificate.X509.{Certificate, ext_client_auth}
use go_web_eid.Certificate.Checks.{
  check_validity, check_key_usage_for_authentication, check_disallowed_policies,
}
use go_web_eid.Certificate.Trust.{TrustStore}
use go_web_eid.Certificate.Trust
use go_web_eid.Certificate.Subject.{subject_cn}
use go_web_eid.Token.{AuthToken, or_malformed, decode_certificate}
use go_web_eid.Platform.{Platform}
use go_web_eid.Validator.Validate.{
  Validator, Moment, require_token, require_nonce, verify_signature, check_revocation, validate,
}
use go_web_eid.Validator.Validate.Laws.{
  IsAuthenticated, NotRevoked, validate_iff, check_revocation_iff,
}

module _ (p : Platform) where
  -- Validate up to the first load: the token, and its certificate.
  unfoldable pub checked :
      Validator → Option AuthToken → Moment → Text → Result (AuthToken × Certificate)
  checked v token m challenge = do
    t ← require_token token
    require_nonce challenge
    der ← decode_certificate p.base64 t
    cert ← or_malformed (p.x509.parse der)
    check_validity cert m.now
    check_key_usage_for_authentication cert
    check_disallowed_policies p.x509 cert v.disallowed_policies
    ok (t, cert)

  -- Validate after the second load.
  unfoldable pub finished : Validator → AuthToken → Certificate → Text → Result Certificate
  finished v t cert challenge = do
    verify_signature p v.origins t cert challenge
    cn ← or_malformed (subject_cn cert)
    ok cert

  -- The chain, by one set.
  abbrev pub chained : TrustStore → Certificate → Moment → Result (Unit {0})
  chained ts cert m = Trust.verify p.x509 ts cert m.now (ext_client_auth ∷ [])

  -- Validate, when the two loads find `ts` and `ts'`.
  unfoldable pub validate_between :
      Validator → (ts ts' : TrustStore) → Option AuthToken → Moment → Text → Result Certificate
  validate_between v ts ts' token m challenge = do
    (t, cert) ← checked v token m challenge
    chained ts cert m
    check_revocation p ts' v.ocsp_checker cert m
    finished v t cert challenge

  -- What it takes of the two sets: the certificate is authenticated by the first, were revocation
  -- checks disabled, and not revoked by the second.
  abbrev pub IsAuthenticatedBetween :
      Validator → (ts ts' : TrustStore) → AuthToken → Moment → Text → Certificate → Type 0
  IsAuthenticatedBetween v ts ts' t m challenge cert =
      IsAuthenticated p (record v { trust = ts; ocsp_checker = none }) t m challenge cert
      × NotRevoked p ts' v.ocsp_checker cert m

  -- With the same set twice it is Validate.
  pub validate-between :
      (v : Validator) (ts : TrustStore) (token : Option AuthToken) (m : Moment) (challenge : Text)
      → validate_between v ts ts token m challenge
        ≡ validate p (record v { trust = ts }) token m challenge
  unfolding validate validate_between checked finished
  validate-between v ts token m challenge = ground arith

  between-parts :
      (v : Validator) (ts ts' : TrustStore) (t : AuthToken) (m : Moment) (challenge : Text)
      (cert : Certificate)
      → (validate_between v ts ts' (some t) m challenge ≡ ok cert) ↔ (
          (validate p (record v { trust = ts; ocsp_checker = none }) (some t) m challenge ≡ ok cert)
          × (check_revocation p ts' v.ocsp_checker cert m ≡ ok tt))
  unfolding validate validate_between checked finished check_revocation subject_cn
  between-parts v ts ts' t m challenge cert = ground arith

  pub validate_between_iff :
      (v : Validator) (ts ts' : TrustStore) (t : AuthToken) (m : Moment) (challenge : Text)
      (cert : Certificate)
      → (validate_between v ts ts' (some t) m challenge ≡ ok cert)
        ↔ ((challenge ≢ []) × IsAuthenticatedBetween v ts ts' t m challenge cert)
  validate_between_iff v ts ts' t m challenge cert = ground (
    arith,
    between-parts v ts ts' t m challenge cert,
    validate_iff p (record v { trust = ts; ocsp_checker = none }) t m challenge cert,
    check_revocation_iff p ts' v.ocsp_checker cert m,
  )
