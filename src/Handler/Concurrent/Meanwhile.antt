-- ===== src/Handler/Concurrent/Meanwhile.antt =====
-- A reload of the trusted set between the two loads of a validation.
use go_web_eid.Common.{◌≡◌, subst, ◌∙◌, none, some, List, [], ◌∷◌, arith, get_elem?}
use go_web_eid.Exceptions.{Result, ok, >>=-eq-ok, err_certificate_not_trusted}
use go_web_eid.Token.{AuthToken}
use go_web_eid.Go.Text.{Text}
use go_web_eid.Platform.{Platform}
use go_web_eid.Certificate.X509.{Certificate}
use go_web_eid.Certificate.Trust.{TrustStore, issuer_of, new_trust_snapshot}
use go_web_eid.Certificate.Trust
use go_web_eid.Ocsp.Options.{Checker}
use go_web_eid.Nonce.Store.{ChallengeNonceStore}
use go_web_eid.Validator.Validate.{Validator, Moment, check_revocation, validate}
use go_web_eid.Validator.Validate.Loads.{
  checked, chained, finished, validate_between, validate-between,
}
use go_web_eid.Assertion.Claims.{ClaimsJson}
use go_web_eid.Assertion.Keys.{Ecdsa}
use go_web_eid.Assertion.Jwks.{Points}
use go_web_eid.Handler.Session.{Context}
use go_web_eid.Handler.Trust.{Os, load_trusted_cas}
use go_web_eid.Handler.Build.{Handler}
use go_web_eid.Handler.Authentication.{ValidateRequest, Outside, failed}
use go_web_eid.Handler.Routes.{post_validate, reload, login_body}
use go_web_eid.Handler.Concurrent.Task.{done, advance, advance_at, interleave}
use go_web_eid.Handler.Concurrent.Requests.{plainly, validate_task, task_of, tasks_of}

-- What a validation that succeeds has passed before its second load.
passed :
    (p : Platform) (v : Validator) (ts : TrustStore) (token : AuthToken) (m : Moment)
    (challenge : Text) (cert : Certificate)
    → validate p (record v { trust = ts }) (some token) m challenge ≡ ok cert
    → (t : AuthToken) × (checked p v (some token) m challenge ≡ ok (t, cert))
      × (chained p ts cert m ≡ ok tt)
unfolding validate_between finished
passed p v ts token m challenge cert valid =
    let between = validate-between p v ts (some token) m challenge ∙ valid in
    let ((t, found), looked, h1) = >>=-eq-ok (checked p v (some token) m challenge) _ between in
    let (_, trusted, h2) = >>=-eq-ok (chained p ts found m) _ h1 in
    let (_, _, h3) = >>=-eq-ok (check_revocation p ts v.ocsp_checker found m) _ h2 in
    let same : found ≡ cert = ground arith in
    subst
      (λ x.
        (t : AuthToken) × (checked p v (some token) m challenge ≡ ok (t, x))
        × (chained p ts x m ≡ ok tt))
      same (t, looked, trusted)

module _ (p : Platform) {Private Public S : Type 0} (e : Ecdsa Private Public) (json : ClaimsJson)
    (points : Points Public) (ops : ChallengeNonceStore Context S) where
  -- The store after a reload of these certificates.
  abbrev pub reloaded_set : TrustStore → List Certificate → TrustStore
  reloaded_set ts cas = record ts { snap = new_trust_snapshot cas }

  -- A reload is felt by a validation that has already started: with revocation checks, a stateless
  -- validation that the validator would answer for a certificate by the handler's trusted set at
  -- its start is refused as not trusted if a reload comes between its two loads of the trusted set, whose
  -- certificates are not empty and hold no issuer of that certificate.
  pub reload_meanwhile :
      (h : Handler Private Public S) (c : Checker) (required : ValidateRequest → Result (Unit {0}))
      (req : ValidateRequest) (o : Outside) (os : Os) (cert ca : Certificate)
      (cas : List Certificate)
      → h.validator.ocsp_checker ≡ some c
      → required req ≡ ok tt
      → validate p (record h.validator { trust = h.trust }) (some req.auth_token) o.moment req.nonce
        ≡ ok cert
      → load_trusted_cas p.x509 os h.config.trusted_ca_certs_path ≡ ok (ca ∷ cas)
      → issuer_of p.x509 (reloaded_set h.trust (ca ∷ cas)) cert ≡ none
      → get_elem?
          (interleave ops
            (0 ∷ 1 ∷ 0 ∷ [])
            (tasks_of p e json points h (post_validate required (ok req) o ∷ reload os ∷ []), h)).0
          0
        ≡ some (done (plainly (login_body (failed err_certificate_not_trusted))))
  unfolding tasks_of task_of interleave advance_at advance validate_task check_revocation
      Trust.reload
  reload_meanwhile h c required req o os cert ca cas checks complete valid loaded foreign =
      let (t, looked, trusted) =
        passed p h.validator h.trust req.auth_token o.moment req.nonce cert valid in
      ground arith
