-- ===== src/Handler/Concurrent/Logins.antt =====
-- Logins and stateless validations of a new handler, served among any other requests.
use go_web_eid.Common.{
  ℕ, zero, suc, ◌≡◌, refl, subst, inl, some, List, [], ◌∷◌, In, here, there, get_elem?,
}
use go_web_eid.Exceptions.{Result, ok}
use go_web_eid.Platform.{Platform}
use go_web_eid.Go.Map.{lookup}
use go_web_eid.Nonce.Memory.{new_in_memory_store}
use go_web_eid.Nonce.Store.{ChallengeNonceStore}
use go_web_eid.Nonce.Generator.{Random}
use go_web_eid.Ocsp.Options.{Transport}
use go_web_eid.Assertion.Claims.{ClaimsJson}
use go_web_eid.Assertion.Keys.{Ecdsa}
use go_web_eid.Assertion.Jwks.{Points}
use go_web_eid.Handler.Configuration.{Configuration}
use go_web_eid.Handler.Session.{Context, Http}
use go_web_eid.Handler.Settings.{NewOption, new_session_store}
use go_web_eid.Handler.Trust.{Os}
use go_web_eid.Handler.Build.{Handler}
use go_web_eid.Handler.Authentication.{LoginRequest, ValidateRequest, Reply, Outside, Authenticated}
use go_web_eid.Handler.Routes.{Request, post_login, post_validate, Response, login_body}
use go_web_eid.Handler.Routes.Login.{Started, start}
use go_web_eid.Handler.Concurrent.Task.{Task, done, interleave}
use go_web_eid.Handler.Concurrent.Requests.{tasks_of}
use go_web_eid.Handler.Concurrent.Sound.{Sound, AllSound, Shares, interleave-AllSound}
use go_web_eid.Handler.Concurrent.Outcome.{HeldAmong, IssuedAmong, AnsweredFor, LoggedIn, Outcome}
use go_web_eid.Handler.Concurrent.Answered.{Sound-task_of}

module _ (p : Platform) (transport : Transport) {Private Public S : Type 0}
    (e : Ecdsa Private Public) (json : ClaimsJson) (points : Points Public)
    (ops : ChallengeNonceStore Context S) where
  outcomes : Handler Private Public S → (all rs : List Request) → List (Response → Type 0)
  outcomes h all [] = []
  outcomes h all (r ∷ rs) = Outcome p e json h all r ∷ outcomes h all rs

  tasks_of-AllSound :
      (h : Handler Private Public S) (all rs : List Request)
      → ((r : Request) → In r rs → In r all)
      → AllSound
          (HeldAmong p e json h all)
          (IssuedAmong p e json h all)
          (outcomes h all rs)
          (tasks_of p e json points h rs)
  unfolding outcomes tasks_of
  tasks_of-AllSound h all [] among = tt
  tasks_of-AllSound h all (r ∷ rs) among = (
    Sound-task_of p e json h all points r (among r here),
    tasks_of-AllSound h all rs (λ q i. among q (there i)),
  )

  -- The condition of a request on the response that its task ends with.
  Outcome-at :
      (h : Handler Private Public S) (all rs : List Request) (ts : List (Task Response)) (i : ℕ)
      (r : Request) (resp : Response)
      → AllSound (HeldAmong p e json h all) (IssuedAmong p e json h all) (outcomes h all rs) ts
      → get_elem? rs i ≡ some r
      → get_elem? ts i ≡ some (done resp)
      → Outcome p e json h all r resp
  unfolding outcomes
  Outcome-at h all [] ts i r resp sound asked ended = cc
  Outcome-at h all (q ∷ rs) [] i r resp sound asked ended = cc
  Outcome-at h all (q ∷ rs) (t ∷ ts) zero r resp sound asked ended =
      let named : q ≡ r = cc in
      let finished : t ≡ done resp = cc in
      subst (λ q. Outcome p e json h all q resp) named
        (subst
          (Sound (HeldAmong p e json h all) (IssuedAmong p e json h all) (Outcome p e json h all q))
          finished sound.0)
  Outcome-at h all (q ∷ rs) (t ∷ ts) (suc i) r resp sound asked ended =
      Outcome-at h all rs ts i r resp sound.1 asked ended

  module _ (os : Os) (random : Random) where
    first_Shares :
        (cfg : Configuration) (opts : List (NewOption Private Public S))
        (h : Handler Private Public S) (rs : List Request)
        → Started p transport e json points ops os random cfg opts h
        → Shares (HeldAmong p e json h rs) (IssuedAmong p e json h rs) h
    unfolding new_session_store new_in_memory_store lookup
    first_Shares cfg opts h rs started = record {
      store = new_session_store cfg;
      nonces = (start p transport e json points ops os random cfg opts h started).nonces;
      valid = tt;
      keyed = refl;
      issued = λ k n found. cc;
      held = inl refl;
    }

    Outcome-among :
        (cfg : Configuration) (opts : List (NewOption Private Public S))
        (h : Handler Private Public S) (rs : List Request) (is : List ℕ) (i : ℕ) (r : Request)
        (resp : Response)
        → Started p transport e json points ops os random cfg opts h
        → get_elem? rs i ≡ some r
        → get_elem? (interleave ops is (tasks_of p e json points h rs, h)).0 i ≡ some (done resp)
        → Outcome p e json h rs r resp
    Outcome-among cfg opts h rs is i r resp started asked ended =
        Outcome-at h rs rs (interleave ops is (tasks_of p e json points h rs, h)).0 i r resp
          (interleave-AllSound (HeldAmong p e json h rs) (IssuedAmong p e json h rs) ops is
            (outcomes h rs rs) (tasks_of p e json points h rs) h
            (first_Shares cfg opts h rs started) (tasks_of-AllSound h rs rs (λ q j. j))).0
          asked ended

    -- A login succeeds only with a challenge of its own session, whatever is served at the same
    -- time: on a handler of New with the in-process store, for any requests of any sessions and
    -- reloads of the trusted set, in any order of their steps, a login that is answered with a user
    -- has found a nonce that a challenge among them issued to its session and that has not expired,
    -- and is answered for a certificate that the token authenticates for it: its chain verifies by
    -- one trusted set and, unless revocation checks are disabled, it is not revoked by another, each
    -- of them the set that the handler had at first or one that a reload among the requests puts in
    -- place.
    pub login_among :
        (cfg : Configuration) (opts : List (NewOption Private Public S))
        (h : Handler Private Public S) (rs : List Request) (is : List ℕ) (i : ℕ) (http : Http)
        (req : LoginRequest) (o : Outside) (resp : Response) (reply : Reply) (a : Authenticated)
        → Started p transport e json points ops os random cfg opts h
        → get_elem? rs i ≡ some (post_login http (ok req) o)
        → get_elem? (interleave ops is (tasks_of p e json points h rs, h)).0 i ≡ some (done resp)
        → resp.body ≡ login_body reply
        → reply.answer ≡ ok a
        → LoggedIn p e json h rs http req.auth_token o reply
    login_among cfg opts h rs is i http req o resp reply a started asked ended =
        Outcome-among cfg opts h rs is i (post_login http (ok req) o) resp started asked ended reply
          a

    -- A stateless validation is answered for its own nonce, whatever is served at the same time: on
    -- a handler of New with the in-process store, for any requests of any sessions and reloads of
    -- the trusted set, in any order of their steps, a stateless validation that is answered with a
    -- user had the fields that it needs, and is answered for a certificate that its token
    -- authenticates for its nonce: its chain verifies by one trusted set and, unless revocation
    -- checks are disabled, it is not revoked by another, each of them the set that the handler had at
    -- first or one that a reload among the requests puts in place.
    pub validation_among :
        (cfg : Configuration) (opts : List (NewOption Private Public S))
        (h : Handler Private Public S) (rs : List Request) (is : List ℕ) (i : ℕ)
        (required : ValidateRequest → Result (Unit {0})) (req : ValidateRequest) (o : Outside)
        (resp : Response) (reply : Reply) (a : Authenticated)
        → Started p transport e json points ops os random cfg opts h
        → get_elem? rs i ≡ some (post_validate required (ok req) o)
        → get_elem? (interleave ops is (tasks_of p e json points h rs, h)).0 i ≡ some (done resp)
        → resp.body ≡ login_body reply
        → reply.answer ≡ ok a
        → (required req ≡ ok tt) × AnsweredFor p e json h rs req.auth_token o req.nonce reply
    validation_among cfg opts h rs is i required req o resp reply a started asked ended =
        Outcome-among cfg opts h rs is i (post_validate required (ok req) o) resp started asked
          ended reply a
