-- ===== src/Handler/Concurrent/Answered.antt =====
-- Logins and stateless validations that are served among any other requests.
use go_web_eid.Common.{
  ◌≡◌, refl, subst, inl, inr, Option, none, some, List, [], ◌∷◌, arith, In, Any-of_In, Bool-cases,
}
use go_web_eid.Go.Text.{Text}
use go_web_eid.Exceptions.{Result, ok, err, Result-cases}
use go_web_eid.Platform.{Platform}
use go_web_eid.Certificate.X509.{Certificate}
use go_web_eid.Certificate.Trust.{TrustStore}
use go_web_eid.Certificate.Trust
use go_web_eid.Nonce.Challenge.{ChallengeNonce, expired}
use go_web_eid.Validator.Validate.{Moment}
use go_web_eid.Signing.Signer.{Signer, check_status}
use go_web_eid.Signing.SigningCertificate.{as_cause}
use go_web_eid.Signing.Signer.Loads.{admitted, chained}
use go_web_eid.Assertion.Claims.{ClaimsJson}
use go_web_eid.Assertion.Keys.{Ecdsa}
use go_web_eid.Assertion.Jwks.{Points}
use go_web_eid.Ocsp.Options.{Checker}
use go_web_eid.Handler.Session.{Http, Session, session_key}
use go_web_eid.Handler.Trust.{Os, load_trusted_cas}
use go_web_eid.Handler.Build.{Handler}
use go_web_eid.Handler.Authentication.{LoginRequest, Outside, failed}
use go_web_eid.Handler.Signing.{SigningCertificateRequest, SigningCertificateResponse}
use go_web_eid.Handler.Routes.{
  Request, get_challenge, post_login, post_validate, post_certificate, post_finalize, get_jwks,
  reload, Response, login_body, certificate_body, reloaded, session_of,
}
use go_web_eid.Handler.Routes.Calls.{nonce_at}
use go_web_eid.Handler.Routes.Issued.{Issued, same_session}
use go_web_eid.Handler.Concurrent.Task.{Task, done, on_result_elim}
use go_web_eid.Handler.Concurrent.Requests.{
  with_cookie, plainly, prepare_task, status_task, log_in_task, certificate_task, reload_task,
  task_of,
}
use go_web_eid.Handler.Concurrent.Sound.{Sound}
use go_web_eid.Handler.Concurrent.Outcome.{
  Sound-validate_task, HeldAmong, IssuedAmong, AnsweredFor, LoggedIn, Outcome, PutsInPlace,
  when_valid-AnsweredFor,
}

module _ (Held : TrustStore → Type 0) (IssuedFor : Text → ChallengeNonce → Type 0)
    (p : Platform) where
  -- A condition that always holds, of the tasks that only load.
  abbrev Loads : Task Response → Type 0
  Loads t = Sound Held IssuedFor (λ r. Unit {0}) t

  Loads-status_task :
      (c : Option Checker) (cert : Certificate) (m : Moment)
      (next : Result (Unit {0}) → Task Response)
      → ((r : Result (Unit {0})) → Loads (next r))
      → Loads (status_task p c cert m next)
  Loads-status_task none cert m next all = all (ok tt)
  Loads-status_task (some c) cert m next all = λ ts known. all (check_status p ts (some c) cert m)

  Loads-certificate_task :
      (s : Signer) (body : Result SigningCertificateRequest) (m : Moment)
      (next : Result SigningCertificateResponse → Task Response)
      → ((r : Result SigningCertificateResponse) → Loads (next r))
      → Loads (certificate_task p s body m next)
  unfolding prepare_task
  Loads-certificate_task s body m next all =
      on_result_elim Loads body _ _ (λ f e. all (err f))
        (λ req e.
          on_result_elim Loads (as_cause (p.base64.decode_std req.certificate)) _ _
            (λ f e. all (err f))
            (λ der e.
              on_result_elim Loads (admitted p s m der) _ _ (λ f e. all (err f))
                (λ cert e ts known.
                  on_result_elim Loads (chained p ts cert m) _ _ (λ f e. all (err f))
                    (λ u e. Loads-status_task s.ocsp_checker cert m _ (λ status.
                      on_result_elim Loads status _ _ (λ f e. all (err f)) (λ w e. all _))))))

module _ (p : Platform) {Private Public S : Type 0} (e : Ecdsa Private Public) (json : ClaimsJson)
    (h : Handler Private Public S) (rs : List Request) where
  Sound-log_in_task :
      (http : Http) (req : LoginRequest) (o : Outside) (s : Session)
      (stored : Result ChallengeNonce)
      → session_of p h http ≡ ok s
      → ((n : ChallengeNonce)
          → stored ≡ ok n
          → (k : Text) × (session_key (some s.id) ≡ ok k) × IssuedAmong p e json h rs k n)
      → Sound
          (HeldAmong p e json h rs)
          (IssuedAmong p e json h rs)
          (Outcome p e json h rs (post_login http (ok req) o))
          (log_in_task p e json h req.auth_token o
            (λ r. done (with_cookie s.cookie (login_body r)))
            stored)
  Sound-log_in_task http req o s (err f) found put = λ reply a same succeeded. absurd (ground arith)
  Sound-log_in_task http req o s (ok n) found put =
      elim (Bool-cases (expired n o.now h.config.nonce_ttl)) [
        | inl late ↦ rw (late) (λ reply a same succeeded. absurd (ground arith))
        | inr fresh ↦ rw (fresh) (
            Sound-validate_task (HeldAmong p e json h rs) (IssuedAmong p e json h rs)
              (Outcome p e json h rs (post_login http (ok req) o)) p h.trust (inl refl) h.validator
              (some req.auth_token) o.moment n.base64_encoded_nonce _
              (λ ts ts' known known' reply a same succeeded.
                let (k, keyed, issued) = put n refl in
                subst (LoggedIn p e json h rs http req.auth_token o) (cc (same)) (record {
                  session = k;
                  here = rw (found) (same_session s k keyed);
                  nonce = n;
                  issued = issued;
                  fresh = fresh;
                  by =
                      when_valid-AnsweredFor p e json h rs req.auth_token o n.base64_encoded_nonce
                        ts ts' a known known' (ground arith);
                })))
      ]

  Sound-reload_task :
      (os : Os)
      → In (reload os) rs
      → (loaded : Result (List Certificate))
      → load_trusted_cas p.x509 os h.config.trusted_ca_certs_path ≡ loaded
      → Sound
          (HeldAmong p e json h rs)
          (IssuedAmong p e json h rs)
          (λ resp. Unit {0})
          (reload_task p loaded (λ r. done (plainly (reloaded r))))
  unfolding Trust.reload
  Sound-reload_task os i (err f) read = tt
  Sound-reload_task os i (ok []) read = (λ ts known. known, λ r. tt)
  Sound-reload_task os i (ok (c ∷ cas)) read = (
    λ ts known. inr (
        Any-of_In (PutsInPlace p h.config (record ts { snap = Trust.new_trust_snapshot (c ∷ cas) }))
          i (c ∷ cas, read, (λ e. cc), refl)),
    λ r. tt,
  )

  pub Sound-task_of :
      (points : Points Public) (r : Request)
      → In r rs
      → Sound
          (HeldAmong p e json h rs)
          (IssuedAmong p e json h rs)
          (Outcome p e json h rs r)
          (task_of p e json points h r)
  unfolding task_of
  Sound-task_of points (get_challenge http now drawn) i =
      elim (Result-cases (session_of p h http)) [
        | inr (f, no_session) ↦ rw (no_session) tt
        | inl (s, found) ↦ elim (Result-cases (drawn h.generator.nonce_size)) [
          | inr (f, failed) ↦ rw (found, failed) tt
          | inl (buf, read) ↦
              rw (found, read)
                (
                  λ k keyed.
                      Any-of_In (Issued p h.config h.generator.nonce_size k (nonce_at p now buf)) i
                        (rw (found) (same_session s k keyed), buf, read, refl),
                  λ r. tt,
                )
        ]
      ]
  Sound-task_of points (post_login http (err f) o) i = elim (Result-cases (session_of p h http)) [
    | inr (f, no_session) ↦ rw (no_session) tt
    | inl (s, found) ↦ rw (found) tt
  ]
  Sound-task_of points (post_login http (ok req) o) i = elim (Result-cases (session_of p h http)) [
    | inr (f, no_session) ↦ rw (no_session) (λ reply a same. cc)
    | inl (s, found) ↦ rw (found) (λ stored put. Sound-log_in_task http req o s stored found put)
  ]
  Sound-task_of points (post_validate required (err f) o) i = tt
  Sound-task_of points (post_validate required (ok req) o) i =
      on_result_elim
        (Sound (HeldAmong p e json h rs) (IssuedAmong p e json h rs)
          (Outcome p e json h rs (post_validate required (ok req) o)))
        (required req) _ _ (λ f failed reply a same succeeded. absurd (ground arith))
        (λ u complete.
          Sound-validate_task (HeldAmong p e json h rs) (IssuedAmong p e json h rs)
            (Outcome p e json h rs (post_validate required (ok req) o)) p h.trust (inl refl)
            h.validator (some req.auth_token) o.moment req.nonce _
            (λ ts ts' known known' reply a same succeeded. (
              complete,
              subst (AnsweredFor p e json h rs req.auth_token o req.nonce) (cc (same)) (
                  when_valid-AnsweredFor p e json h rs req.auth_token o req.nonce ts ts' a known
                    known' (ground arith)),
            )))
  Sound-task_of points (post_certificate http body m) i =
      elim (Result-cases (session_of p h http)) [
        | inr (f, no_session) ↦ rw (no_session) tt
        | inl (s, found) ↦ rw (found) (
            Loads-certificate_task (HeldAmong p e json h rs) (IssuedAmong p e json h rs) p h.signer
              body m (λ r. done (with_cookie s.cookie (certificate_body r))) (λ r. tt))
      ]
  Sound-task_of points (post_finalize http body) i = elim (Result-cases (session_of p h http)) [
    | inr (f, no_session) ↦ rw (no_session) tt
    | inl (s, found) ↦ rw (found) tt
  ]
  Sound-task_of points get_jwks i = tt
  Sound-task_of points (reload os) i = Sound-reload_task os i _ refl
