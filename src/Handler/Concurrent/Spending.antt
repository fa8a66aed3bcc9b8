-- ===== src/Handler/Concurrent/Spending.antt =====
-- A challenge pays for one login, whatever is served at the same time.
use go_web_eid.Common.{
  ℕ, ◌+◌, ◌≤◌, ◌≡◌, ◌≢◌, refl, subst, inl, inr, some, List, [], ◌∷◌, arith, if◌then◌else◌,
  Bool-cases,
}
use go_web_eid.Go.Text.{Text, text_eq}
use go_web_eid.Go.Map.{lookup}
use go_web_eid.Exceptions.{Result, ok, err, Result-cases}
use go_web_eid.Platform.{Platform}
use go_web_eid.Token.{AuthToken}
use go_web_eid.Nonce.Challenge.{ChallengeNonce, expired}
use go_web_eid.Nonce.Memory.{new_in_memory_store}
use go_web_eid.Nonce.Memory.Counting.{weight, gain}
use go_web_eid.Nonce.Store.{ChallengeNonceStore}
use go_web_eid.Nonce.Generator.{Random}
use go_web_eid.Ocsp.Options.{Transport}
use go_web_eid.Assertion.Claims.{ClaimsJson}
use go_web_eid.Assertion.Keys.{Ecdsa}
use go_web_eid.Assertion.Jwks.{Points}
use go_web_eid.Handler.Configuration.{Configuration}
use go_web_eid.Handler.Session.{Context, Session, session_key}
use go_web_eid.Handler.Settings.{NewOption, new_session_store}
use go_web_eid.Handler.Trust.{Os, load_trusted_cas}
use go_web_eid.Handler.Build.{Handler}
use go_web_eid.Handler.Authentication.{LoginRequest, Outside}
use go_web_eid.Handler.Routes.{
  Request, get_challenge, post_login, post_validate, post_certificate, post_finalize, get_jwks,
  reload, Response, login_body, certificate_body, session_of,
}
use go_web_eid.Handler.Routes.Login.{Started, start}
use go_web_eid.Handler.Concurrent.Task.{Task, done, on_result_elim, interleave}
use go_web_eid.Handler.Concurrent.Requests.{
  with_cookie, log_in_task, session_task, login_task, task_of, tasks_of,
}
use go_web_eid.Handler.Concurrent.Credit.{Pays, AllPay, sum, Holds, interleave-AllPay}
use go_web_eid.Handler.Concurrent.Tally.{
  session_weight, counted, challenge_weight, login_weight, challenges, answered, successful_logins,
  counted-le, key_weight, Affords, Pays-validate_task, Pays-certificate_task,
}

module _ (p : Platform) {Private Public S : Type 0} (e : Ecdsa Private Public) (json : ClaimsJson)
    (points : Points Public) (h : Handler Private Public S) (k : Text) (named : k ≢ []) where
  -- What the answer to a request counts for.
  abbrev win : Request → Response → ℕ
  win r resp = counted (login_weight p h.config k r) resp.body

  weight_le_one : (s : Session) → (if text_eq k s.id then 1 else 0) ≤ 1
  weight_le_one s = ground arith

  Pays-log_in_task :
      (s : Session) (token : AuthToken) (o : Outside) (stored : Result ChallengeNonce)
      → Pays k
          (λ resp. counted (if text_eq k s.id then 1 else 0) resp.body)
          (log_in_task p e json h token o (λ r. done (with_cookie s.cookie (login_body r))) stored)
          (gain (weight k (session_key (some s.id))) stored)
  Pays-log_in_task s token o (err f) = ground arith
  Pays-log_in_task s token o (ok n) =
      rw (key_weight k s.id named) (elim (Bool-cases (expired n o.now h.config.nonce_ttl)) [
        | inl late ↦ rw (late) (counted-le _ _ (weight_le_one s))
        | inr fresh ↦ rw (fresh) (
            Pays-validate_task p k (λ resp. counted (if text_eq k s.id then 1 else 0) resp.body)
              (if text_eq k s.id then 1 else 0) h.validator (some token) o.moment
              n.base64_encoded_nonce _ (λ r. counted-le _ _ (weight_le_one s)))
      ])

  Pays-login :
      (sess : Result Session) (body : Result LoginRequest) (o : Outside)
      → Pays k
          (λ resp. counted (session_weight k sess) resp.body)
          (session_task sess
            (λ ctx reply. login_task p e json h ctx body o (λ r. reply (login_body r))))
          0
  Pays-login (err f) body o = omega arith
  Pays-login (ok s) (err f) o = ground arith
  Pays-login (ok s) (ok req) o = λ stored.
      let g = gain (weight k (session_key (some s.id))) stored in
      let same : g ≡ 0 + g = omega arith in
      subst
        (Pays k (λ resp. counted (if text_eq k s.id then 1 else 0) resp.body)
          (log_in_task p e json h req.auth_token o (λ r. done (with_cookie s.cookie (login_body r)))
            stored))
        same (Pays-log_in_task s req.auth_token o stored)

  Pays-task_of :
      (r : Request) → Pays k (win r) (task_of p e json points h r) (challenge_weight p h.config k r)
  unfolding task_of
  Pays-task_of (get_challenge http now drawn) = elim (Result-cases (session_of p h http)) [
    | inr (f, no_session) ↦ rw (no_session) (omega arith)
    | inl (s, found) ↦ elim (Result-cases (drawn h.generator.nonce_size)) [
      | inr (f, failed) ↦ rw (found, failed) (omega arith)
      | inl (buf, read) ↦
          rw (found, read) (0, omega (arith, key_weight k s.id named), λ r. omega arith)
    ]
  ]
  Pays-task_of (post_login http body o) = Pays-login (session_of p h http) body o
  Pays-task_of (post_validate required body o) =
      on_result_elim (Affords p k (λ resp. 0) 0) body _ _ (λ f e. omega arith)
        (λ req e.
          on_result_elim (Affords p k (λ resp. 0) 0) (required req) _ _ (λ f e. omega arith)
            (λ u e.
              Pays-validate_task p k (λ resp. 0) 0 h.validator (some req.auth_token) o.moment
                req.nonce _ (λ r. omega arith)))
  Pays-task_of (post_certificate http body m) = elim (Result-cases (session_of p h http)) [
    | inr (f, no_session) ↦ rw (no_session) (omega arith)
    | inl (s, found) ↦ rw (found) (
        Pays-certificate_task p k (λ resp. 0) 0 h.signer body m
          (λ r. done (with_cookie s.cookie (certificate_body r))) (λ r. omega arith))
  ]
  Pays-task_of (post_finalize http body) = elim (Result-cases (session_of p h http)) [
    | inr (f, no_session) ↦ rw (no_session) (omega arith)
    | inl (s, found) ↦ rw (found) (omega arith)
  ]
  Pays-task_of get_jwks = omega arith
  Pays-task_of (reload os) =
      elim (Result-cases (load_trusted_cas p.x509 os h.config.trusted_ca_certs_path)) [
        | inr (f, failed) ↦ rw (failed) (omega arith)
        | inl (cas, loaded) ↦ rw (loaded) (λ r. omega arith)
      ]

  wins_of : List Request → List (Response → ℕ)
  wins_of [] = []
  wins_of (r ∷ rs) = win r ∷ wins_of rs

  credits_of : List Request → List ℕ
  credits_of [] = []
  credits_of (r ∷ rs) = challenge_weight p h.config k r ∷ credits_of rs

  sum-credits_of : (rs : List Request) → sum (credits_of rs) ≡ challenges p h.config k rs
  unfolding credits_of challenges
  sum-credits_of [] = refl
  sum-credits_of (r ∷ rs) = omega (arith, sum-credits_of rs)

  tasks_of-AllPay :
      (rs : List Request) → AllPay k (wins_of rs) (tasks_of p e json points h rs) (credits_of rs)
  unfolding wins_of tasks_of credits_of
  tasks_of-AllPay [] = tt
  tasks_of-AllPay (r ∷ rs) = (Pays-task_of r, tasks_of-AllPay rs)

  answered-le :
      (r : Request) (t : Task Response) (c : ℕ) → Pays k (win r) t c → answered p h.config k r t ≤ c
  answered-le r (done resp) c pays = pays
  answered-le r (Task.loads next) c pays = omega arith
  answered-le r (Task.swaps cas next) c pays = omega arith
  answered-le r (Task.puts ctx now n next) c pays = omega arith
  answered-le r (Task.takes ctx now next) c pays = omega arith

  successful_logins-le :
      (rs : List Request) (ts : List (Task Response)) (cs : List ℕ)
      → AllPay k (wins_of rs) ts cs
      → successful_logins p h.config k rs ts ≤ sum cs
  unfolding wins_of successful_logins
  successful_logins-le [] ts cs pay = omega arith
  successful_logins-le (r ∷ rs) [] cs pay = omega arith
  successful_logins-le (r ∷ rs) (t ∷ ts) [] pay = elim pay [ ]
  successful_logins-le (r ∷ rs) (t ∷ ts) (c ∷ cs) pay =
      omega (arith, answered-le r t c pay.0, successful_logins-le rs ts cs pay.1)

module _ (p : Platform) (transport : Transport) {Private Public S : Type 0}
    (e : Ecdsa Private Public) (json : ClaimsJson) (points : Points Public)
    (ops : ChallengeNonceStore Context S) (os : Os) (random : Random) where
  -- A challenge pays for one login: on a handler of New with the in-process store, for any requests
  -- of any sessions and reloads of the trusted set, in any order of their steps, the logins of a
  -- session (whose identifier is not empty) that have been answered with a user are at most as many
  -- as the challenges of that session among the requests.
  pub logins_le_challenges :
      (cfg : Configuration) (opts : List (NewOption Private Public S))
      (h : Handler Private Public S) (rs : List Request) (is : List ℕ) (k : Text)
      → Started p transport e json points ops os random cfg opts h
      → k ≢ []
      → successful_logins p h.config k rs (interleave ops is (tasks_of p e json points h rs, h)).0
        ≤ challenges p h.config k rs
  unfolding new_session_store new_in_memory_store lookup
  logins_le_challenges cfg opts h rs is k started named =
      let first : Holds k (sum (credits_of p e json points h k named rs))
          (sum (credits_of p e json points h k named rs)) h =
        record {
          store = new_session_store cfg;
          nonces = (start p transport e json points ops os random cfg opts h started).nonces;
          valid = tt;
          keyed = refl;
          bound = omega arith;
        } in
      let (ds, pay, le) =
        interleave-AllPay k ops is (wins_of p e json points h k named rs)
          (tasks_of p e json points h rs) (credits_of p e json points h k named rs) h
          (sum (credits_of p e json points h k named rs)) first
          (tasks_of-AllPay p e json points h k named rs) in
      omega (
        arith,
        successful_logins-le p e json points h k named rs
            (interleave ops is (tasks_of p e json points h rs, h)).0 ds pay,
        le,
        sum-credits_of p e json points h k named rs,
      )
