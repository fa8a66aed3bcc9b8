-- ===== src/Handler/Concurrent/Alone.antt =====
-- A task that runs with no other in between is the handler of its request.
use go_web_eid.Common.{◌≡◌, refl, ap, ◌∙◌, inl, inr, Option, some, List, arith}
use go_web_eid.Go.Text.{Text, Bytes}
use go_web_eid.Exceptions.{Result, ok, err, ◌>>=◌, Result-cases}
use go_web_eid.Platform.{Platform}
use go_web_eid.Token.{AuthToken}
use go_web_eid.Ocsp.Options.{Transport}
use go_web_eid.Certificate.X509.{Certificate}
use go_web_eid.Nonce.Challenge.{ChallengeNonce}
use go_web_eid.Signing.SigningCertificate.{as_cause}
use go_web_eid.Nonce.Store.{ChallengeNonceStore}
use go_web_eid.Nonce.Generator.{generate_and_store_nonce}
use go_web_eid.Validator.Validate.{Validator, Moment, validate, check_revocation}
use go_web_eid.Validator.Validate.Loads.{validate_between, validate-between}
use go_web_eid.Signing.HashFunction.{SignatureAlgorithm}
use go_web_eid.Signing.Signer.{Signer, prepare_signing}
use go_web_eid.Signing.Signer.Loads.{prepare_between, prepare-between}
use go_web_eid.Assertion.Claims.{ClaimsJson}
use go_web_eid.Assertion.Keys.{Ecdsa}
use go_web_eid.Assertion.Jwks.{Points}
use go_web_eid.Handler.Session.{Context}
use go_web_eid.Handler.Settings.{nonce_store, take_nonce}
use go_web_eid.Handler.Build.{Handler, reload_trust, validator_of, signer_of}
use go_web_eid.Handler.Authentication.{
  ValidateRequest, Reply, Outside, challenge, login, log_in, when_valid, with_nonces,
}
use go_web_eid.Handler.Authentication
use go_web_eid.Handler.Signing.{
  SigningCertificateRequest, SigningCertificateResponse, signing_certificate,
}
use go_web_eid.Handler.Routes.{
  Request, get_challenge, post_login, post_validate, post_certificate, post_finalize, get_jwks,
  reload, serve, login_body, certificate_body, session_of,
}
use go_web_eid.Handler.Concurrent.Task.{Task, done, complete}
use go_web_eid.Handler.Concurrent.Requests.{
  plainly, with_cookie, validate_task, prepare_task, log_in_task, stateless_task, certificate_task,
  task_of,
}

module _ (p : Platform) {Private Public S R : Type 0} (ops : ChallengeNonceStore Context S)
    (h : Handler Private Public S) where
  complete-validate_task :
      (v : Validator) (token : Option AuthToken) (m : Moment) (challenge : Text)
      (next : Result Certificate → Task R)
      → complete ops h (validate_task p v token m challenge next)
        ≡ complete ops h (next (validate p (record v { trust = h.trust }) token m challenge))
  unfolding validate_task complete validate_between check_revocation
  complete-validate_task v token m challenge next =
      ground arith
      ∙ ap (λ r. complete ops h (next r)) (validate-between p v h.trust token m challenge)

  complete-prepare_task :
      (s : Signer) (m : Moment) (der : Bytes) (supported : List SignatureAlgorithm)
      (next : Result (Certificate × SignatureAlgorithm × Text) → Task R)
      → complete ops h (prepare_task p s m der supported next)
        ≡ complete ops h
            (next (prepare_signing p (record s { trust = some h.trust }) m der supported))
  unfolding prepare_task complete prepare_between
  complete-prepare_task s m der supported next =
      ground arith ∙ ap (λ r. complete ops h (next r)) (prepare-between p s h.trust m der supported)

module _ (p : Platform) {Private Public S R : Type 0} (e : Ecdsa Private Public) (json : ClaimsJson)
    (ops : ChallengeNonceStore Context S) where
  complete-log_in_task :
      (h now_shared : Handler Private Public S) (token : AuthToken) (o : Outside)
      (next : Reply → Task R) (stored : Result ChallengeNonce)
      → validator_of h ≡ record h.validator { trust = now_shared.trust }
      → complete ops now_shared (log_in_task p e json h token o next stored)
        ≡ complete ops now_shared (next (log_in p e json h token stored o))
  complete-log_in_task h now_shared token o next (err f) same = refl
  complete-log_in_task h now_shared token o next (ok stored) same = ground (
    arith,
    same,
    complete-validate_task p ops now_shared h.validator (some token) o.moment
        stored.base64_encoded_nonce
        (λ r. next (when_valid p e json h.settings.assertion_issuer r o)),
  )

  complete-stateless_task :
      (h : Handler Private Public S) (required : ValidateRequest → Result (Unit {0}))
      (body : Result ValidateRequest) (o : Outside) (next : Reply → Task R)
      → validator_of h ≡ record h.validator { trust = h.trust }
      → complete ops h (stateless_task p e json h required body o next)
        ≡ complete ops h (next (Authentication.validate p e json h required body o))
  unfolding Authentication.validate
  complete-stateless_task h required (err f) o next same = refl
  complete-stateless_task h required (ok req) o next same = ground (
    arith,
    same,
    complete-validate_task p ops h h.validator (some req.auth_token) o.moment req.nonce
        (λ r. next (when_valid p e json h.settings.assertion_issuer r o)),
  )

  complete-certificate_task :
      (h : Handler Private Public S) (body : Result SigningCertificateRequest) (m : Moment)
      (next : Result SigningCertificateResponse → Task R)
      → signer_of h ≡ record h.signer { trust = some h.trust }
      → complete ops h (certificate_task p h.signer body m next)
        ≡ complete ops h (next (signing_certificate p h body m))
  unfolding signing_certificate
  complete-certificate_task h (err f) m next same = refl
  complete-certificate_task h (ok req) m next same =
      elim (Result-cases (as_cause (p.base64.decode_std req.certificate))) [
        | inr (f, failed) ↦ ground arith
        | inl (der, decoded) ↦
            rw (decoded, same)
              (complete-prepare_task p ops h h.signer m der req.supported_signature_algorithms (λ r.
                next (do
                  (cert, algo, hash_fn) ← r
                  ok (record { signature_algorithm = algo; hash_function = hash_fn }))))
      ]

module _ (p : Platform) (transport : Transport) {Private Public S : Type 0}
    (e : Ecdsa Private Public) (json : ClaimsJson) (points : Points Public)
    (ops : ChallengeNonceStore Context S) where
  -- Served alone: the steps of a request's task, with no step of another in between, answer what
  -- its handler answers and leave the handler that it leaves, on a handler whose generator has the
  -- handler's nonce store and whose validator and signer check with the handler's trust store.
  pub complete-task_of :
      (h : Handler Private Public S) (r : Request)
      → h.generator.store ≡ nonce_store ops
      → validator_of h ≡ record h.validator { trust = h.trust }
      → signer_of h ≡ record h.signer { trust = some h.trust }
      → complete ops h (task_of p e json points h r) ≡ serve p transport e json points ops h r
  unfolding task_of complete serve challenge generate_and_store_nonce login reload_trust
      signing_certificate Authentication.validate
  complete-task_of h (get_challenge http now drawn) bound checks signs = ground arith
  complete-task_of h (post_login http (err f) o) bound checks signs = ground arith
  complete-task_of h (post_login http (ok req) o) bound checks signs =
      elim (Result-cases (session_of p h http)) [
        | inr (f, no_session) ↦ ground arith
        | inl (s, found) ↦
            let (stored, nonces) = take_nonce ops h.settings.nonces (some s.id) o.store_now in
            rw (found) (
              complete-log_in_task p e json ops h (with_nonces h nonces) req.auth_token o
                (λ r. done (with_cookie s.cookie (login_body r))) stored checks)
      ]
  complete-task_of h (post_validate required body o) bound checks signs =
      complete-stateless_task p e json ops h required body o (λ r. done (plainly (login_body r)))
        checks
  complete-task_of h (post_certificate http body m) bound checks signs =
      elim (Result-cases (session_of p h http)) [
        | inr (f, no_session) ↦ ground arith
        | inl (s, found) ↦ rw (found) (
            complete-certificate_task p e json ops h body m
              (λ r. done (with_cookie s.cookie (certificate_body r))) signs)
      ]
  complete-task_of h (post_finalize http body) bound checks signs = ground arith
  complete-task_of h get_jwks bound checks signs = refl
  complete-task_of h (reload os) bound checks signs = ground arith
