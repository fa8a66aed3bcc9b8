-- ===== src/Handler/Concurrent/Requests.antt =====
-- azugo/routes.go: the requests of Bind, and ReloadTrust, as tasks. A handler's settings other than
-- its nonces do not change, so a task is given the handler as it is when the request arrives.
use go_web_eid.Common.{ℕ, length, Option, none, some, List, [], ◌∷◌, if◌then◌else◌}
use go_web_eid.Go.Text.{Text, Bytes}
use go_web_eid.Go.Time.{Time}
use go_web_eid.Exceptions.{GoError, Result, ok, err, ◌>>=◌, ◌>>◌, err_challenge_nonce_expired}
use go_web_eid.Certificate.X509.{Certificate}
use go_web_eid.Ocsp.Options.{Checker}
use go_web_eid.Token.{AuthToken}
use go_web_eid.Platform.{Platform}
use go_web_eid.Nonce.Challenge.{ChallengeNonce, expired}
use go_web_eid.Validator.Validate.{Validator, Moment, check_revocation}
use go_web_eid.Validator.Validate.Loads.{checked, chained, finished}
use go_web_eid.Signing.Signer.{Signer, check_status}
use go_web_eid.Signing.Signer.Loads.{admitted, negotiated}
use go_web_eid.Signing.Signer.Loads
use go_web_eid.Signing.HashFunction.{SignatureAlgorithm}
use go_web_eid.Signing.SigningCertificate.{as_cause}
use go_web_eid.Assertion.Claims.{ClaimsJson}
use go_web_eid.Assertion.Keys.{Ecdsa}
use go_web_eid.Assertion.Jwks.{Points}
use go_web_eid.Handler.Session.{Context, Session, SessionCookie}
use go_web_eid.Handler.Trust.{load_trusted_cas}
use go_web_eid.Handler.Build.{Handler}
use go_web_eid.Handler.Authentication.{
  LoginRequest, ValidateRequest, ChallengeResponse, Reply, Outside, failed, when_valid,
}
use go_web_eid.Handler.Signing.{SigningCertificateRequest, SigningCertificateResponse}
use go_web_eid.Handler.Finalize.{finalize}
use go_web_eid.Handler.Routes.{
  Request, get_challenge, post_login, post_validate, post_certificate, post_finalize, get_jwks,
  reload, Response, Body, refused, challenge_body, login_body, certificate_body, finalize_body,
  reloaded, jwks_answer, session_of,
}
use go_web_eid.Handler.Concurrent.Task.{Task, done, loads, swaps, puts, takes, on_result}

-- The answer of a route that sets no cookie, and of one behind EnsureSession.
abbrev pub plainly : Body → Response
plainly b = record { cookie = none; body = b }

abbrev pub with_cookie : Option SessionCookie → Body → Response
with_cookie c b = record { cookie = c; body = b }

module _ (p : Platform) {R : Type 0} where
  -- The revocation check loads the trusted set only if there is a checker.
  abbrev pub revocation_task :
      Option Checker → Certificate → Moment → (Result (Unit {0}) → Task R) → Task R
  revocation_task none cert m next = next (ok tt)
  revocation_task (some c) cert m next = loads (λ ts. next (check_revocation p ts (some c) cert m))

  -- Validate, and what follows it.
  unfoldable pub validate_task :
      Validator → Option AuthToken → Moment → Text → (Result Certificate → Task R) → Task R
  validate_task v token m challenge next =
      let failed : GoError → Task R = λ e. next (err e) in
      on_result (checked p v token m challenge) failed (λ (t, cert). loads (λ ts.
        on_result (chained p ts cert m) failed (λ _.
          revocation_task v.ocsp_checker cert m
            (λ status. on_result status failed (λ _. next (finished p v t cert challenge))))))

  abbrev pub status_task :
      Option Checker → Certificate → Moment → (Result (Unit {0}) → Task R) → Task R
  status_task none cert m next = next (ok tt)
  status_task (some c) cert m next = loads (λ ts. next (check_status p ts (some c) cert m))

  -- PrepareSigning of a signer with a trust store, and what follows it.
  unfoldable pub prepare_task :
      Signer
      → Moment
      → Bytes
      → List SignatureAlgorithm
      → (Result (Certificate × SignatureAlgorithm × Text) → Task R)
      → Task R
  prepare_task s m der supported next =
      let failed : GoError → Task R = λ e. next (err e) in
      on_result (admitted p s m der) failed (λ cert. loads (λ ts.
        on_result (Loads.chained p ts cert m) failed (λ _.
          status_task s.ocsp_checker cert m
            (λ status. on_result status failed (λ _. next (negotiated p s cert supported))))))

  -- challenge, with what the entropy source answers
  abbrev pub challenge_task :
      Context → Time → Result Bytes → (Result ChallengeResponse → Task R) → Task R
  challenge_task ctx now (err e) next = next (err e)
  challenge_task ctx now (ok buf) next =
      let nonce : ChallengeNonce = record {
        base64_encoded_nonce = p.base64.encode_std buf;
        issued_at = now;
      } in
      puts ctx now nonce (λ r. next (do r; ok (record { nonce = nonce.base64_encoded_nonce })))

  -- signingCertificate
  abbrev pub certificate_task :
      Signer
      → Result SigningCertificateRequest
      → Moment
      → (Result SigningCertificateResponse → Task R)
      → Task R
  certificate_task s body m next =
      let failed : GoError → Task R = λ e. next (err e) in
      on_result body failed (λ req.
        on_result (as_cause (p.base64.decode_std req.certificate)) failed (λ der.
          prepare_task s m der req.supported_signature_algorithms (λ r. next (do
            (cert, algo, hash_fn) ← r
            ok (record { signature_algorithm = algo; hash_function = hash_fn })))))

  -- ReloadTrust, with what loading the certificates answered
  abbrev pub reload_task : Result (List Certificate) → (Result ℕ → Task R) → Task R
  reload_task (err e) next = next (err e)
  reload_task (ok cas) next = swaps cas (λ r. next (do r; ok (length cas)))

  module _ {Private Public : Type 0} (e : Ecdsa Private Public) (json : ClaimsJson) {S : Type 0}
      (h : Handler Private Public S) where
    -- login, after the nonce was taken out of the store.
    abbrev pub log_in_task : AuthToken → Outside → (Reply → Task R) → Result ChallengeNonce → Task R
    log_in_task token o next (err f) = next (failed f)
    log_in_task token o next (ok stored) =
        if expired stored o.now h.config.nonce_ttl
        then next (failed err_challenge_nonce_expired)
        else validate_task h.validator (some token) o.moment stored.base64_encoded_nonce
            (λ r. next (when_valid p e json h.settings.assertion_issuer r o))

    -- login
    abbrev pub login_task : Context → Result LoginRequest → Outside → (Reply → Task R) → Task R
    login_task ctx (err f) o next = next (failed f)
    login_task ctx (ok req) o next = takes ctx o.store_now (log_in_task req.auth_token o next)

    -- The stateless validation
    abbrev pub stateless_task :
        (ValidateRequest → Result (Unit {0}))
        → Result ValidateRequest
        → Outside
        → (Reply → Task R)
        → Task R
    stateless_task required body o next =
        let refuse : GoError → Task R = λ f. next (failed f) in
        on_result body refuse (λ req. on_result (required req) refuse (λ _.
          validate_task h.validator (some req.auth_token) o.moment req.nonce
            (λ r. next (when_valid p e json h.settings.assertion_issuer r o))))

-- A route behind EnsureSession.
abbrev pub session_task :
    Result Session → (Context → (Body → Task Response) → Task Response) → Task Response
session_task (err f) route = done (plainly (refused f))
session_task (ok s) route = route (some s.id) (λ b. done (with_cookie s.cookie b))

module _ (p : Platform) {Private Public S : Type 0} (e : Ecdsa Private Public) (json : ClaimsJson)
    (points : Points Public) where
  -- Bind, and ReloadTrust
  unfoldable pub task_of : Handler Private Public S → Request → Task Response
  task_of h (get_challenge http now drawn) = session_task (session_of p h http) (λ ctx reply.
      challenge_task p ctx now (drawn h.generator.nonce_size) (λ r. reply (challenge_body r)))
  task_of h (post_login http body o) =
      session_task (session_of p h http)
        (λ ctx reply. login_task p e json h ctx body o (λ r. reply (login_body r)))
  task_of h (post_validate required body o) =
      stateless_task p e json h required body o (λ r. done (plainly (login_body r)))
  task_of h (post_certificate http body m) =
      session_task (session_of p h http)
        (λ ctx reply. certificate_task p h.signer body m (λ r. reply (certificate_body r)))
  task_of h (post_finalize http body) =
      session_task (session_of p h http) (λ ctx reply. reply (finalize_body (finalize p body)))
  task_of h get_jwks = done (plainly (jwks_answer p points h.settings.published_keys))
  task_of h (reload os) =
      reload_task p (load_trusted_cas p.x509 os h.config.trusted_ca_certs_path)
        (λ r. done (plainly (reloaded r)))

  -- The requests that are in flight together.
  unfoldable pub tasks_of : Handler Private Public S → List Request → List (Task Response)
  unfolding task_of
  tasks_of h [] = []
  tasks_of h (r ∷ rs) = task_of h r ∷ tasks_of h rs
