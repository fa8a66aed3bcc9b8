-- ===== src/Handler/Routes/Login.antt =====
-- Logins over any sequence of requests, with the nonces kept in process.
use go_web_eid.Common.{
  ◌≡◌, ◌≢◌, sym, ap, subst, ◌∙◌, inl, inr, false, some, List, [], ◌∷◌, All, Any,
}
use go_web_eid.Go.Text.{Text, Bytes}
use go_web_eid.Go.Time.{Time}
use go_web_eid.Exceptions.{ok, Result-cases, err_challenge_nonce_not_found}
use go_web_eid.Platform.{Platform}
use go_web_eid.Certificate.X509.{Certificate}
use go_web_eid.Nonce.Challenge.{ChallengeNonce, expired}
use go_web_eid.Nonce.Store.{ChallengeNonceStore}
use go_web_eid.Nonce.Memory.{is_unset, get_and_remove}
use go_web_eid.Nonce.Memory.Traces.{run, answered_was_put}
use go_web_eid.Nonce.Generator.{Random, min_nonce_bytes}
use go_web_eid.Ocsp.Options.{Transport}
use go_web_eid.Assertion.Claims.{ClaimsJson}
use go_web_eid.Assertion.Keys.{Ecdsa}
use go_web_eid.Assertion.Jwks.{Points}
use go_web_eid.Validator.Validate.Laws.{IsAuthenticated}
use go_web_eid.Handler.Configuration.{Configuration}
use go_web_eid.Handler.Session.{Context, Http, session_key}
use go_web_eid.Handler.Settings.{
  NewOption, apply_options, default_settings, in_process, new_session_store,
}
use go_web_eid.Handler.Trust.{Os}
use go_web_eid.Handler.Build.Laws.{new-IsBuilt}
use go_web_eid.Handler.Build.{new, Handler, validator_of}
use go_web_eid.Handler.Authentication.{
  LoginRequest, Outside, Reply, Authenticated, respond, failed, log_in,
}
use go_web_eid.Handler.Routes.{
  Request, get_challenge, post_login, Body, challenge_body, login_body, serve, serve_all,
}
use go_web_eid.Handler.Routes.Issued.{
  InSession, ChallengesFor, Issued, session_key_of, calls-Issued,
}
use go_web_eid.Handler.Routes.Leaving.{Leaves}
use go_web_eid.Handler.Routes.Answers.{
  reply_of, err-not-ok, used_up, login_answered, logged_in, challenge_answered, let_in, still_there,
}
use go_web_eid.Handler.Routes.Calls.{nonce_at, all_calls, Keeps, serve_all-Keeps}
use go_web_eid.Handler.Routes.Started.{
  store_after, store_after-IsValid, session_key-store_after, ttl-store_after,
}

module _ (p : Platform) (transport : Transport) {Private Public S : Type 0}
    (e : Ecdsa Private Public) (json : ClaimsJson) (points : Points Public)
    (ops : ChallengeNonceStore Context S) where
  -- The handler after some requests.
  abbrev pub after : Handler Private Public S → List Request → Handler Private Public S
  after h rs = serve_all p transport e json points ops h rs

  -- The body of the answer to one more.
  abbrev pub answer : Handler Private Public S → Request → Body
  answer h r = (serve p transport e json points ops h r).0.body

  module _ (os : Os) (random : Random) where
    -- A handler that New has just answered, whose options kept the in-process nonce store.
    abbrev pub Started :
        Configuration → List (NewOption Private Public S) → Handler Private Public S → Type 0
    Started cfg opts h =
        (new p os transport ops random (some cfg) opts ≡ ok h)
        × ((apply_options opts (default_settings cfg)).nonces ≡ in_process (new_session_store cfg))

    pub start :
        (cfg : Configuration) (opts : List (NewOption Private Public S))
        (h : Handler Private Public S)
        → Started cfg opts h
        → Keeps ops cfg min_nonce_bytes (new_session_store cfg) h
    start cfg opts h (built, in_process_kept) =
        let b = new-IsBuilt p os transport ops random cfg opts h built in
        record {
          config = b.config;
          nonce_size = b.nonce_size;
          store = b.store;
          nonces = ap (λ t. t.nonces) b.settings_kept ∙ in_process_kept;
        }

    after-Keeps :
        (cfg : Configuration) (opts : List (NewOption Private Public S))
        (h : Handler Private Public S) (rs : List Request)
        → Started cfg opts h
        → Keeps ops cfg min_nonce_bytes (store_after p cfg rs) (after h rs)
    after-Keeps cfg opts h rs started =
        serve_all-Keeps p transport e json points ops cfg min_nonce_bytes (new_session_store cfg) h
          rs (start cfg opts h started)

    -- A login of a session uses up its challenge: on a handler of New with the in-process store,
    -- after any requests, a login of a session (whose identifier is not empty) with a body that could
    -- be read, whatever it was answered, and any further requests of any sessions and reloads of the
    -- trusted set, of which none is a challenge for that session, the next login of that session
    -- with a body that can be read fails with "not found".
    pub login_once :
        (cfg : Configuration) (opts : List (NewOption Private Public S))
        (h : Handler Private Public S) (before : List Request) (http http' : Http)
        (req req' : LoginRequest) (o o' : Outside) (k : Text) (rs : List Request)
        → Started cfg opts h
        → k ≢ []
        → InSession p cfg http k
        → InSession p cfg http' k
        → All (λ r. ¬ ChallengesFor p cfg k r) rs
        → answer
            (after (after h before) (post_login http (ok req) o ∷ rs))
            (post_login http' (ok req') o')
          ≡ login_body (failed err_challenge_nonce_not_found)
    login_once cfg opts h before http http' req req' o o' k rs started named here again none_for =
        let s = store_after p cfg before in
        let served = post_login http (ok req) o ∷ rs in
        let last = after (after h before) served in
        login_answered p transport e json points ops cfg min_nonce_bytes
          (run s (all_calls p cfg min_nonce_bytes served)) last http' req' o' k
          (serve_all-Keeps p transport e json points ops cfg min_nonce_bytes s (after h before)
            served (after-Keeps cfg opts h before started))
          again
        ∙ ap (λ r. login_body (log_in p e json last req'.auth_token r o'))
            (used_up p min_nonce_bytes k cfg s http req o rs (store_after-IsValid p cfg before)
              (session_key-store_after p cfg before) named here none_for)

    -- A login succeeds only with a challenge of its own session: on a handler of New with the
    -- in-process store, after any requests of any sessions and reloads of the trusted set, a login
    -- of a session (whose identifier is not empty) that succeeds has found a nonce that a challenge
    -- for that session issued and that has not expired, and a certificate that the token
    -- authenticates for it, by the trusted set at that time.
    pub login_sound :
        (cfg : Configuration) (opts : List (NewOption Private Public S))
        (h : Handler Private Public S) (rs : List Request) (http : Http) (req : LoginRequest)
        (o : Outside) (k : Text) (reply : Reply) (a : Authenticated)
        → Started cfg opts h
        → k ≢ []
        → InSession p cfg http k
        → answer (after h rs) (post_login http (ok req) o) ≡ login_body reply
        → reply.answer ≡ ok a
        → (n : ChallengeNonce) × Any (Issued p cfg min_nonce_bytes k n) rs
          × (expired n o.now cfg.nonce_ttl ≡ false)
          × (cert : Certificate) × IsAuthenticated p
              (validator_of (after h rs))
              req.auth_token
              o.moment
              n.base64_encoded_nonce
              cert
    unfolding new_session_store
    login_sound cfg opts h rs http req o k reply a started named here answered done =
        let last = after h rs in
        let s = store_after p cfg rs in
        let kept = after-Keeps cfg opts h rs started in
        let same = ap reply_of (
          sym (
            login_answered p transport e json points ops cfg min_nonce_bytes s last http req o k
              kept here)
          ∙ answered) in
        let succeeded = ap (λ r. r.answer) same ∙ done in
        elim (Result-cases (get_and_remove s (some k)).0) [
          | inr (f, missing) ↦ absurd (
              err-not-ok (
                subst (λ r. (log_in p e json last req.auth_token r o).answer ≡ ok a) missing
                  succeeded))
          | inl (n, taken) ↦
              let (fresh, cert, authentic) =
                logged_in p transport e json points ops last req.auth_token o n a (
                  subst (λ r. (log_in p e json last req.auth_token r o).answer ≡ ok a) taken
                    succeeded) in
              (
                n,
                calls-Issued p min_nonce_bytes k cfg n rs (
                    answered_was_put session_key cfg.nonce_ttl (all_calls p cfg min_nonce_bytes rs)
                      (some k) k n (session_key_of k named) taken),
                subst (λ g. expired n o.now g.nonce_ttl ≡ false) kept.config fresh,
                cert,
                authentic,
              )
        ]

    -- A user who answers the challenge in time is let in: on a handler of New with the in-process
    -- store and a positive lifetime of nonces, after any requests, a challenge is answered with the
    -- nonce that was drawn; after any further requests and reloads, of which none is a challenge or
    -- a login of that session or a challenge at a time when the nonce has expired, a login of the
    -- session before the nonce expires, with a token that authenticates a certificate for it by the
    -- trusted set at that time, is answered for that certificate; the identifier of the session and
    -- the text of the nonce are not empty.
    pub login_complete :
        (cfg : Configuration) (opts : List (NewOption Private Public S))
        (h : Handler Private Public S) (before rs : List Request) (http http' : Http) (now : Time)
        (drawn : Random) (buf : Bytes) (req : LoginRequest) (o : Outside) (k : Text)
        (cert : Certificate)
        → Started cfg opts h
        → is_unset cfg.nonce_ttl ≡ false
        → k ≢ []
        → InSession p cfg http k
        → InSession p cfg http' k
        → drawn min_nonce_bytes ≡ ok buf
        → p.base64.encode_std buf ≢ []
        → All (Leaves p min_nonce_bytes k cfg (nonce_at p now buf)) rs
        → expired (nonce_at p now buf) o.now cfg.nonce_ttl ≡ false
        → IsAuthenticated p
            (validator_of (after (after h before) (get_challenge http now drawn ∷ rs)))
            req.auth_token
            o.moment
            (p.base64.encode_std buf)
            cert
        → (answer (after h before) (get_challenge http now drawn)
            ≡ challenge_body (ok (record { nonce = p.base64.encode_std buf })))
          × (answer
                (after (after h before) (get_challenge http now drawn ∷ rs))
                (post_login http' (ok req) o)
              ≡ login_body (
                  respond p e json
                    (after
                      (after h before)
                      (get_challenge http now drawn ∷ rs)).settings.assertion_issuer
                    cert
                    o))
    login_complete cfg opts h before rs http http' now drawn buf req o k cert started positive named
          here again read filled leaves fresh authentic =
        let s = store_after p cfg before in
        let n = nonce_at p now buf in
        let served = get_challenge http now drawn ∷ rs in
        let last = after (after h before) served in
        let t = run s (all_calls p cfg min_nonce_bytes served) in
        let keeps = after-Keeps cfg opts h before started in
        let (issued, put) =
          challenge_answered p transport e json points ops cfg min_nonce_bytes s (after h before)
            http now drawn buf k keeps (store_after-IsValid p cfg before)
            (session_key-store_after p cfg before) named here read in
        let kept =
          serve_all-Keeps p transport e json points ops cfg min_nonce_bytes s (after h before)
            served keeps in
        (
          issued,
          login_answered p transport e json points ops cfg min_nonce_bytes t last http' req o k kept
                again
              ∙ ap login_body (
                  ap (λ r. log_in p e json last req.auth_token r o)
                    (still_there p min_nonce_bytes k cfg s (get_challenge http now drawn) n rs
                      (store_after-IsValid p cfg before) (session_key-store_after p cfg before)
                      (ttl-store_after p cfg before positive) put leaves named)
                  ∙ let_in p transport e json points ops last req.auth_token o n cert
                      (subst (λ g. expired n o.now g.nonce_ttl ≡ false) (sym kept.config) fresh)
                      filled authentic),
        )
