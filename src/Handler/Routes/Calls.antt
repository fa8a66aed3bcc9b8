-- ===== src/Handler/Routes/Calls.antt =====
-- What a request does to the in-process nonce store, as calls of its methods.
use go_web_eid.Common.{ℕ, ◌≡◌, refl, sym, ap, ◌∙◌, subst, inl, inr, some, List, [], ◌∷◌, ◌++◌}
use go_web_eid.Go.Text.{Bytes}
use go_web_eid.Go.Time.{Time}
use go_web_eid.Exceptions.{Result, ok, err, Result-cases}
use go_web_eid.Platform.{Platform}
use go_web_eid.Nonce.Challenge.{ChallengeNonce}
use go_web_eid.Nonce.Store.{ChallengeNonceStore}
use go_web_eid.Nonce.Memory.{InMemoryStore}
use go_web_eid.Nonce.Memory
use go_web_eid.Nonce.Memory.Traces.{Call, puts, gets, run, step}
use go_web_eid.Nonce.Generator.{Random, generate_and_store_nonce}
use go_web_eid.Ocsp.Options.{Transport}
use go_web_eid.Assertion.Claims.{ClaimsJson}
use go_web_eid.Assertion.Keys.{Ecdsa}
use go_web_eid.Assertion.Jwks.{Points}
use go_web_eid.Handler.Configuration.{Configuration}
use go_web_eid.Handler.Session.{Context, Http, Session, ensure_session}
use go_web_eid.Handler.Settings.{in_process, nonce_store}
use go_web_eid.Certificate.Trust
use go_web_eid.Handler.Trust.{Os, load_trusted_cas}
use go_web_eid.Handler.Build.{Handler, reload_trust}
use go_web_eid.Handler.Authentication.{LoginRequest, Outside, login, challenge}
use go_web_eid.Handler.Signing.{signing_certificate}
use go_web_eid.Handler.Finalize.{finalize}
use go_web_eid.Handler.Routes.{
  Request, get_challenge, post_login, post_validate, post_certificate, post_finalize, get_jwks,
  reload, Body, certificate_body, finalize_body, in_session, session_of, serve, serve_all,
}

module _ (p : Platform) where
  abbrev pub nonce_at : Time → Bytes → ChallengeNonce
  nonce_at now buf = record { base64_encoded_nonce = p.base64.encode_std buf; issued_at = now }

  abbrev pub session_for : Configuration → Http → Result Session
  session_for cfg http = ensure_session p.base64 p.unicode p.parse_url cfg http

  abbrev pub challenge_calls : Result Session → Time → Result Bytes → List (Call Context)
  challenge_calls (err f) now drawn = []
  challenge_calls (ok s) now (err f) = []
  challenge_calls (ok s) now (ok buf) = puts (some s.id) now (nonce_at now buf) ∷ []

  abbrev pub login_calls : Result Session → Result LoginRequest → List (Call Context)
  login_calls (err f) body = []
  login_calls (ok s) (err f) = []
  login_calls (ok s) (ok req) = gets (some s.id) ∷ []

  module _ (cfg : Configuration) (size : ℕ) where
    -- The calls of a request.
    unfoldable pub calls : Request → List (Call Context)
    calls (get_challenge http now drawn) = challenge_calls (session_for cfg http) now (drawn size)
    calls (post_login http body o) = login_calls (session_for cfg http) body
    calls _ = []

    unfoldable pub all_calls : List Request → List (Call Context)
    all_calls [] = []
    all_calls (r ∷ rs) = calls r ++ all_calls rs

pub run-append :
    {C : Type 0} (s : InMemoryStore C) (cs ds : List (Call C))
    → run s (cs ++ ds) ≡ run (run s cs) ds
unfolding run
run-append s [] ds = refl
run-append s (c ∷ cs) ds = run-append (step s c) cs ds

module _ {Private Public S : Type 0} (ops : ChallengeNonceStore Context S) where
  -- A handler with this configuration and nonce size, whose generator has its store, and whose
  -- nonces are kept in process.
  pub record Keeps (cfg : Configuration) (size : ℕ) (s : InMemoryStore Context)
      (h : Handler Private Public S) : Type 0 where
    pub config : h.config ≡ cfg
    pub nonce_size : h.generator.nonce_size ≡ size
    pub store : h.generator.store ≡ nonce_store ops
    pub nonces : h.settings.nonces ≡ in_process s

  -- Only these fields matter.
  Keeps-of_parts :
      {cfg : Configuration} {size : ℕ} {s : InMemoryStore Context} {h h' : Handler Private Public S}
      → h'.config ≡ cfg
      → h'.generator ≡ h.generator
      → h'.settings ≡ h.settings
      → Keeps cfg size s h
      → Keeps cfg size s h'
  Keeps-of_parts config generator settings k = record {
    config = config;
    nonce_size = ap (λ g. g.nonce_size) generator ∙ k.nonce_size;
    store = ap (λ g. g.store) generator ∙ k.store;
    nonces = ap (λ t. t.nonces) settings ∙ k.nonces;
  }

module _ (p : Platform) (transport : Transport) {Private Public S : Type 0}
    (e : Ecdsa Private Public) (json : ClaimsJson) (points : Points Public)
    (ops : ChallengeNonceStore Context S) where
  challenge-Keeps :
      (cfg : Configuration) (size : ℕ) (s : InMemoryStore Context) (h : Handler Private Public S)
      (http : Http) (now : Time) (drawn : Random)
      → Keeps ops cfg size s h
      → Keeps ops cfg size
          (run s (calls p cfg size (get_challenge http now drawn)))
          (serve p transport e json points ops h (get_challenge http now drawn)).1
  unfolding serve calls run step challenge generate_and_store_nonce
  challenge-Keeps cfg size s h http now drawn k = elim (Result-cases (session_for p cfg http)) [
    | inr (f, no_session) ↦ rw (k.config, no_session) (Keeps-of_parts ops refl refl refl k)
    | inl (sess, found) ↦ elim (Result-cases (drawn size)) [
      | inr (f, failed) ↦
          rw (k.config, found, k.nonce_size, failed)
            (record { config = refl; nonce_size = refl; store = k.store; nonces = k.nonces })
      | inl (buf, read) ↦
          elim (Result-cases (Memory.put s (some sess.id) now (nonce_at p now buf)).0) [
            | inl (u, kept) ↦
                rw (k.config, found, k.nonce_size, read, k.store, k.nonces, kept)
                  (record { config = refl; nonce_size = refl; store = refl; nonces = refl })
            | inr (f, lost) ↦
                rw (k.config, found, k.nonce_size, read, k.store, k.nonces, lost)
                  (record { config = refl; nonce_size = refl; store = refl; nonces = refl })
          ]
    ]
  ]

  login-Keeps :
      (cfg : Configuration) (size : ℕ) (s : InMemoryStore Context) (h : Handler Private Public S)
      (http : Http) (body : Result LoginRequest) (o : Outside)
      → Keeps ops cfg size s h
      → Keeps ops cfg size
          (run s (calls p cfg size (post_login http body o)))
          (serve p transport e json points ops h (post_login http body o)).1
  unfolding serve calls run step login
  login-Keeps cfg size s h http (err f) o k = elim (Result-cases (session_for p cfg http)) [
    | inr (g, no_session) ↦ rw (k.config, no_session) (Keeps-of_parts ops refl refl refl k)
    | inl (sess, found) ↦ rw (k.config, found) (Keeps-of_parts ops refl refl refl k)
  ]
  login-Keeps cfg size s h http (ok req) o k = elim (Result-cases (session_for p cfg http)) [
    | inr (g, no_session) ↦ rw (k.config, no_session) (Keeps-of_parts ops refl refl refl k)
    | inl (sess, found) ↦
        rw (k.config, found, k.nonces)
          (record { config = refl; nonce_size = k.nonce_size; store = k.store; nonces = refl })
  ]

  -- A route behind EnsureSession whose handler changes nothing.
  same-Keeps :
      (cfg : Configuration) (size : ℕ) (s : InMemoryStore Context) (h : Handler Private Public S)
      (http : Http) (next : Context → Body)
      → Keeps ops cfg size s h
      → Keeps ops cfg size s (in_session h (session_of p h http) (λ ctx. (next ctx, h))).1
  same-Keeps cfg size s h http next k = elim (Result-cases (session_of p h http)) [
    | inr (f, no_session) ↦ rw (no_session) k
    | inl (sess, found) ↦ rw (found) k
  ]

  reload-Keeps :
      (cfg : Configuration) (size : ℕ) (s : InMemoryStore Context) (h : Handler Private Public S)
      (os : Os)
      → Keeps ops cfg size s h
      → Keeps ops cfg size s (reload_trust p os h).1
  unfolding reload_trust
  reload-Keeps cfg size s h os k =
      elim (Result-cases (load_trusted_cas p.x509 os h.config.trusted_ca_certs_path)) [
        | inr (f, failed) ↦ rw (failed) k
        | inl (cas, loaded) ↦ elim (Result-cases (Trust.reload h.trust cas).0) [
          | inr (f, refused) ↦ rw (loaded, refused) (Keeps-of_parts ops k.config refl refl k)
          | inl (u, done) ↦ rw (loaded, done) (Keeps-of_parts ops k.config refl refl k)
        ]
      ]

  -- What a request leaves is what its calls leave.
  pub serve-Keeps :
      (cfg : Configuration) (size : ℕ) (s : InMemoryStore Context) (h : Handler Private Public S)
      (r : Request)
      → Keeps ops cfg size s h
      → Keeps ops cfg size (run s (calls p cfg size r)) (serve p transport e json points ops h r).1
  unfolding serve calls run
  serve-Keeps cfg size s h (get_challenge http now drawn) k =
      challenge-Keeps cfg size s h http now drawn k
  serve-Keeps cfg size s h (post_login http body o) k = login-Keeps cfg size s h http body o k
  serve-Keeps cfg size s h (post_validate required body o) k = k
  serve-Keeps cfg size s h (post_certificate http body m) k =
      same-Keeps cfg size s h http (λ ctx. certificate_body (signing_certificate p h body m)) k
  serve-Keeps cfg size s h (post_finalize http body) k =
      same-Keeps cfg size s h http (λ ctx. finalize_body (finalize p body)) k
  serve-Keeps cfg size s h get_jwks k = k
  serve-Keeps cfg size s h (reload os) k = reload-Keeps cfg size s h os k

  pub serve_all-Keeps :
      (cfg : Configuration) (size : ℕ) (s : InMemoryStore Context) (h : Handler Private Public S)
      (rs : List Request)
      → Keeps ops cfg size s h
      → Keeps ops cfg size
          (run s (all_calls p cfg size rs))
          (serve_all p transport e json points ops h rs)
  unfolding serve_all all_calls run
  serve_all-Keeps cfg size s h [] k = k
  serve_all-Keeps cfg size s h (r ∷ rs) k =
      subst
        (λ t.
          Keeps ops cfg size t (
            serve_all p transport e json points ops (serve p transport e json points ops h r).1 rs))
        (sym (run-append s (calls p cfg size r) (all_calls p cfg size rs)))
        (serve_all-Keeps cfg size (run s (calls p cfg size r))
          (serve p transport e json points ops h r).1 rs (serve-Keeps cfg size s h r k))
