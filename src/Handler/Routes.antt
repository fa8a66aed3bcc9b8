-- ===== src/Handler/Routes.antt =====
-- azugo/routes.go: Bind, as the one function that serves a request to any of the routes, and the
-- reload of the trusted set between requests. A request carries what it makes the handlers read.
pub mod Calls
pub mod Issued
pub mod Leaving
pub mod Answers
pub mod Started
pub mod Login
use go_web_eid.Common.{ℕ, Option, none, some, List, [], ◌∷◌}
use go_web_eid.Go.Text.{Text}
use go_web_eid.Go.Time.{Time}
use go_web_eid.Exceptions.{GoError, Result, ok, err}
use go_web_eid.Platform.{Platform}
use go_web_eid.Nonce.Store.{ChallengeNonceStore}
use go_web_eid.Nonce.Generator.{Random}
use go_web_eid.Validator.Validate.{Moment}
use go_web_eid.Ocsp.Options.{Transport}
use go_web_eid.Assertion.Claims.{ClaimsJson}
use go_web_eid.Assertion.Keys.{Ecdsa, KeySet}
use go_web_eid.Assertion.Jwks.{Points, Jwks, jwks}
use go_web_eid.Handler.Session.{Context, Http, Session, SessionCookie, ensure_session}
use go_web_eid.Handler.Trust.{Os}
use go_web_eid.Handler.Build.{Handler, reload_trust}
use go_web_eid.Handler.Authentication.{
  LoginRequest, ValidateRequest, ChallengeResponse, Reply, Outside, login, validate, challenge,
}
use go_web_eid.Handler.Signing.{
  SigningCertificateRequest, SigningCertificateResponse, signing_certificate,
}
use go_web_eid.Handler.Finalize.{FinalizeRequest, FinalizeResponse, finalize}

-- What reaches a handler: a request to one of the routes, or a call of ReloadTrust with the file
-- system as it then is.
pub data Request : Type 0 where
  get_challenge : Http → Time → Random → Request
  post_login : Http → Result LoginRequest → Outside → Request
  post_validate : (ValidateRequest → Result (Unit {0})) → Result ValidateRequest → Outside → Request
  post_certificate : Http → Result SigningCertificateRequest → Moment → Request
  post_finalize : Http → Result FinalizeRequest → Request
  get_jwks : Request
  reload : Os → Request

-- What it is answered.
pub data Body : Type 0 where
  not_found : Body
  refused : GoError → Body
  challenge_body : Result ChallengeResponse → Body
  login_body : Reply → Body
  certificate_body : Result SigningCertificateResponse → Body
  finalize_body : Result FinalizeResponse → Body
  jwks_body : Result Jwks → Body
  reloaded : Result ℕ → Body

-- The cookie that the session middleware sets, if any, and the body.
pub record Response : Type 0 where
  pub cookie : Option SessionCookie
  pub body : Body

module _ {Private Public S : Type 0} where
  abbrev without_cookie : Body × Handler Private Public S → Response × Handler Private Public S
  without_cookie (b, h) = (record { cookie = none; body = b }, h)

  abbrev with_cookie :
      Option SessionCookie → Body × Handler Private Public S → Response × Handler Private Public S
  with_cookie c (b, h) = (record { cookie = c; body = b }, h)

  -- A route behind EnsureSession: the handler sees the session's identifier.
  abbrev pub in_session :
      Handler Private Public S
      → Result Session
      → (Context → Body × Handler Private Public S)
      → Response × Handler Private Public S
  in_session h (err f) next = without_cookie (refused f, h)
  in_session h (ok s) next = with_cookie s.cookie (next (some s.id))

  abbrev pub session_of : Platform → Handler Private Public S → Http → Result Session
  session_of p h http = ensure_session p.base64 p.unicode p.parse_url h.config http

  abbrev challenge_answer :
      Result ChallengeResponse × Handler Private Public S → Body × Handler Private Public S
  challenge_answer (r, h) = (challenge_body r, h)

  abbrev login_answer : Reply × Handler Private Public S → Body × Handler Private Public S
  login_answer (r, h) = (login_body r, h)

  abbrev reload_answer : Result ℕ × Handler Private Public S → Body × Handler Private Public S
  reload_answer (r, h) = (reloaded r, h)

-- The route of the verification keys is there only if keys are published.
abbrev pub jwks_answer :
    {Public : Type 0} → Platform → Points Public → Option (KeySet Public) → Body
jwks_answer p points none = not_found
jwks_answer p points (some ks) = jwks_body (jwks points p.base64 ks.keys)

module _ (p : Platform) (transport : Transport) {Private Public S : Type 0}
    (e : Ecdsa Private Public) (json : ClaimsJson) (points : Points Public)
    (ops : ChallengeNonceStore Context S) where
  -- Bind
  unfoldable pub serve : Handler Private Public S → Request → Response × Handler Private Public S
  serve h (get_challenge http now drawn) =
      in_session h (session_of p h http) (λ ctx. challenge_answer (challenge p ops h ctx now drawn))
  serve h (post_login http body o) =
      in_session h (session_of p h http) (λ ctx. login_answer (login p e json ops h ctx body o))
  serve h (post_validate required body o) =
      without_cookie (login_body (validate p e json h required body o), h)
  serve h (post_certificate http body m) =
      in_session h (session_of p h http)
        (λ ctx. (certificate_body (signing_certificate p h body m), h))
  serve h (post_finalize http body) =
      in_session h (session_of p h http) (λ ctx. (finalize_body (finalize p body), h))
  serve h get_jwks = without_cookie (jwks_answer p points h.settings.published_keys, h)
  serve h (reload os) = without_cookie (reload_answer (reload_trust p os h))

  -- Requests one after another. A handler calls the nonce store once at most, so the order of these
  -- calls is an order of the requests; a reload during a request is left out.
  unfoldable pub serve_all : Handler Private Public S → List Request → Handler Private Public S
  unfolding serve
  serve_all h [] = h
  serve_all h (r ∷ rs) = serve_all (serve h r).1 rs
