-- ===== src/Handler/Concurrent/Outcome.antt =====
-- What a request that was served among others was answered for.
use go_web_eid.Common.{false, ◌≡◌, ◌≢◌, ◌⊎◌, inl, inr, Option, none, some, List, [], arith, Any}
use go_web_eid.Go.Text.{Text}
use go_web_eid.Exceptions.{Result, ok, Result-cases}
use go_web_eid.Platform.{Platform}
use go_web_eid.Token.{AuthToken}
use go_web_eid.Certificate.X509.{Certificate}
use go_web_eid.Certificate.Trust.{TrustStore}
use go_web_eid.Certificate.Trust
use go_web_eid.Nonce.Challenge.{ChallengeNonce, expired}
use go_web_eid.Validator.Validate.{Validator, Moment, check_revocation}
use go_web_eid.Validator.Validate.Loads.{
  checked, chained, validate_between, validate_between_iff, IsAuthenticatedBetween,
}
use go_web_eid.Assertion.Claims.{ClaimsJson}
use go_web_eid.Assertion.Keys.{Ecdsa}
use go_web_eid.Handler.Configuration.{Configuration}
use go_web_eid.Handler.Session.{Http}
use go_web_eid.Handler.Trust.{load_trusted_cas}
use go_web_eid.Handler.Build.{Handler}
use go_web_eid.Handler.Authentication.{Reply, Outside, Authenticated, failed, respond, when_valid}
use go_web_eid.Handler.Routes.{Request, post_login, post_validate, reload, Response, login_body}
use go_web_eid.Handler.Routes.Issued.{InSession, Issued}
use go_web_eid.Ocsp.Options.{Checker}
use go_web_eid.Handler.Concurrent.Task.{on_result_elim, Task}
use go_web_eid.Handler.Concurrent.Requests.{revocation_task, validate_task}
use go_web_eid.Handler.Concurrent.Sound.{Sound}

-- A reload that puts the set `ts` in place.
abbrev pub PutsInPlace : Platform → Configuration → TrustStore → Request → Type 0
PutsInPlace p cfg ts (reload os) =
    (cas : List Certificate) × (load_trusted_cas p.x509 os cfg.trusted_ca_certs_path ≡ ok cas)
    × (cas ≢ [])
    × (ts.snap ≡ Trust.new_trust_snapshot cas)
PutsInPlace p cfg ts _ = ⊥

module _ {R : Type 0} (Held : TrustStore → Type 0) (IssuedFor : Text → ChallengeNonce → Type 0)
    (P : R → Type 0) (p : Platform) (first : TrustStore) (held : Held first) where
  Sound-revocation_task :
      (c : Option Checker) (cert : Certificate) (m : Moment) (next : Result (Unit {0}) → Task R)
      → ((ts : TrustStore)
          → Held ts
          → Sound Held IssuedFor P (next (check_revocation p ts c cert m)))
      → Sound Held IssuedFor P (revocation_task p c cert m next)
  unfolding check_revocation
  Sound-revocation_task none cert m next all = all first held
  Sound-revocation_task (some c) cert m next all = all

  pub Sound-validate_task :
      (v : Validator) (token : Option AuthToken) (m : Moment) (challenge : Text)
      (next : Result Certificate → Task R)
      → ((ts ts' : TrustStore)
          → Held ts
          → Held ts'
          → Sound Held IssuedFor P (next (validate_between p v ts ts' token m challenge)))
      → Sound Held IssuedFor P (validate_task p v token m challenge next)
  unfolding validate_task validate_between
  Sound-validate_task v token m challenge next all =
      on_result_elim (Sound Held IssuedFor P) (checked p v token m challenge) _ _
        (λ f e. rw (e) at (all first first held held))
        (λ (t, cert) e ts trusted.
          on_result_elim (Sound Held IssuedFor P) (chained p ts cert m) _ _
            (λ f g. rw (e, g) at (all ts first trusted held))
            (λ u g. Sound-revocation_task v.ocsp_checker cert m _ (λ ts' known.
              on_result_elim (Sound Held IssuedFor P) (check_revocation p ts' v.ocsp_checker cert m)
                _ _ (λ f k. rw (e, g, k) at (all ts ts' trusted known))
                (λ w k. rw (e, g, k) at (all ts ts' trusted known)))))

module _ (p : Platform) {Private Public S : Type 0} (e : Ecdsa Private Public) (json : ClaimsJson)
    (h : Handler Private Public S) (rs : List Request) where
  -- The set that the handler has at first, or one that a reload among the requests put in place.
  abbrev pub HeldAmong : TrustStore → Type 0
  HeldAmong ts = (ts ≡ h.trust) ⊎ Any (PutsInPlace p h.config ts) rs

  -- A challenge among the requests issued the nonce to the session.
  abbrev pub IssuedAmong : Text → ChallengeNonce → Type 0
  IssuedAmong k n = Any (Issued p h.config h.generator.nonce_size k n) rs

  -- A certificate that the token authenticates for the challenge, its chain by one held set and its
  -- revocation status by another, and the reply for it.
  pub record AnsweredFor (token : AuthToken) (o : Outside) (challenge : Text) (reply : Reply)
      : Type 0 where
    pub chain_set : TrustStore
    pub status_set : TrustStore
    pub chain_held : HeldAmong chain_set
    pub status_held : HeldAmong status_set
    pub cert : Certificate
    pub authentic :
        IsAuthenticatedBetween p h.validator chain_set status_set token o.moment challenge cert
    pub answered : reply ≡ respond p e json h.settings.assertion_issuer cert o

  -- A session of the request, and a nonce that was issued to it and has not expired.
  pub record LoggedIn (http : Http) (token : AuthToken) (o : Outside) (reply : Reply) : Type 0 where
    pub session : Text
    pub here : InSession p h.config http session
    pub nonce : ChallengeNonce
    pub issued : IssuedAmong session nonce
    pub fresh : expired nonce o.now h.config.nonce_ttl ≡ false
    pub by : AnsweredFor token o nonce.base64_encoded_nonce reply

  -- What holds of the response to a request: a login or a stateless validation that is answered
  -- with a user has earned it.
  abbrev pub Outcome : Request → Response → Type 0
  Outcome (post_login http (ok req) o) resp =
      (reply : Reply) (a : Authenticated)
      → resp.body ≡ login_body reply
      → reply.answer ≡ ok a
      → LoggedIn http req.auth_token o reply
  Outcome (post_validate required (ok req) o) resp =
      (reply : Reply) (a : Authenticated)
      → resp.body ≡ login_body reply
      → reply.answer ≡ ok a
      → (required req ≡ ok tt) × AnsweredFor req.auth_token o req.nonce reply
  Outcome _ resp = Unit {0}

  pub when_valid-AnsweredFor :
      (token : AuthToken) (o : Outside) (challenge : Text) (ts ts' : TrustStore) (a : Authenticated)
      → HeldAmong ts
      → HeldAmong ts'
      → (when_valid p e json h.settings.assertion_issuer
          (validate_between p h.validator ts ts' (some token) o.moment challenge)
          o).answer
        ≡ ok a
      → AnsweredFor token o challenge (
          when_valid p e json h.settings.assertion_issuer
            (validate_between p h.validator ts ts' (some token) o.moment challenge)
            o)
  when_valid-AnsweredFor token o challenge ts ts' a known known' succeeded =
      elim (Result-cases (validate_between p h.validator ts ts' (some token) o.moment challenge)) [
        | inr (f, failed) ↦ absurd (ground arith)
        | inl (cert, valid) ↦ record {
          chain_set = ts;
          status_set = ts';
          chain_held = known;
          status_held = known';
          cert = cert;
          authentic =
              ((validate_between_iff p h.validator ts ts' token o.moment challenge cert).0 valid).1;
          answered = rw valid;
        }
      ]
