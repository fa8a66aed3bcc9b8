-- ===== src/Handler/Routes/Answers.antt =====
-- What login and challenge answer, by what the in-process store holds.
use go_web_eid.Common.{
  ℕ, ◌≡◌, ◌≢◌, refl, sym, ap, subst, ◌∙◌, inl, inr, false, some, List, [], ◌∷◌, arith, All,
}
use go_web_eid.Go.Text.{Text, Bytes, text_eq_iff}
use go_web_eid.Go.Time.{Time, zero_time}
use go_web_eid.Exceptions.{GoError, no_error, ok, err, Result-cases, err_challenge_nonce_not_found}
use go_web_eid.Platform.{Platform}
use go_web_eid.Certificate.X509.{Certificate}
use go_web_eid.Token.{AuthToken}
use go_web_eid.Nonce.Challenge.{ChallengeNonce, expired}
use go_web_eid.Nonce.Store.{ChallengeNonceStore}
use go_web_eid.Nonce.Memory.{InMemoryStore, get_and_remove}
use go_web_eid.Nonce.Memory.Laws.{IsValid, nonce_of, refines_map, answer_of}
use go_web_eid.Nonce.Memory.Traces.{step, run, run-IsValid, session_key-run, PutsFor, single_use}
use go_web_eid.Nonce.Memory.Lasting.{run-Spares, ttl-run}
use go_web_eid.Nonce.Generator.{Random, generate_and_store_nonce}
use go_web_eid.Ocsp.Options.{Transport}
use go_web_eid.Assertion.Claims.{ClaimsJson}
use go_web_eid.Assertion.Keys.{Ecdsa}
use go_web_eid.Assertion.Jwks.{Points}
use go_web_eid.Validator.Validate.Laws.{IsAuthenticated, validate_iff}
use go_web_eid.Validator.Validate
use go_web_eid.Handler.Configuration.{Configuration}
use go_web_eid.Handler.Session.{Context, Http, session_key}
use go_web_eid.Handler.Build.{Handler, validator_of}
use go_web_eid.Handler.Authentication.{
  LoginRequest, Outside, Reply, Authenticated, challenge, respond, failed, log_in, login,
}
use go_web_eid.Handler.Routes.{
  Request, get_challenge, post_login, Body, challenge_body, login_body, serve,
}
use go_web_eid.Handler.Routes.Issued.{InSession, ChallengesFor, session_key_of, none_put}
use go_web_eid.Handler.Routes.Leaving.{Leaves, all_calls-Spares}
use go_web_eid.Handler.Routes.Calls.{run-append, nonce_at, session_for, calls, all_calls, Keeps}

abbrev pub reply_of : Body → Reply
reply_of (login_body r) = r
reply_of _ = failed no_error

pub err-not-ok {ℓ} : {A : Type ℓ} {f : GoError} {a : A} → err f ≡ ok a → ⊥
err-not-ok h = cc

module _ (p : Platform) (size : ℕ) (k : Text) (cfg : Configuration) where
  -- The store after a login and these requests has nothing for the session.
  pub used_up :
      (s : InMemoryStore Context) (http : Http) (req : LoginRequest) (o : Outside)
      (rs : List Request)
      → IsValid s
      → s.session_key ≡ session_key
      → k ≢ []
      → InSession p cfg http k
      → All (λ r. ¬ ChallengesFor p cfg k r) rs
      → (get_and_remove (run s (all_calls p cfg size (post_login http (ok req) o ∷ rs))) (some k)).0
        ≡ err err_challenge_nonce_not_found
  unfolding all_calls calls run step
  used_up s http req o rs valid key named (c, found) none_for =
      let keyed : s.session_key (some k) ≡ ok k =
        ap (λ f. f (some k)) key ∙ session_key_of k named in
      rw (found) (
        single_use s (some k) (some k) k (all_calls p cfg size rs) valid keyed keyed (
          subst (λ f. All (λ c. ¬ PutsFor f k c) (all_calls p cfg size rs)) (sym key)
            (none_put p size k cfg rs none_for)))

module _ (p : Platform) (transport : Transport) {Private Public S : Type 0}
    (e : Ecdsa Private Public) (json : ClaimsJson) (points : Points Public)
    (ops : ChallengeNonceStore Context S) where
  -- The answer to a login whose body was read.
  pub login_answered :
      (cfg : Configuration) (size : ℕ) (s : InMemoryStore Context) (h : Handler Private Public S)
      (http : Http) (req : LoginRequest) (o : Outside) (k : Text)
      → Keeps ops cfg size s h
      → InSession p cfg http k
      → (serve p transport e json points ops h (post_login http (ok req) o)).0.body
        ≡ login_body (log_in p e json h req.auth_token (get_and_remove s (some k)).0 o)
  unfolding serve login
  login_answered cfg size s h http req o k keeps (c, found) =
      let here : session_for p h.config http ≡ ok (record { id = k; cookie = c }) =
        subst (λ g. session_for p g http ≡ ok (record { id = k; cookie = c })) (sym keeps.config)
          found in
      rw (here, keeps.nonces) refl

  -- What a login that succeeds has found.
  pub logged_in :
      (h : Handler Private Public S) (token : AuthToken) (o : Outside) (n : ChallengeNonce)
      (a : Authenticated)
      → (log_in p e json h token (ok n) o).answer ≡ ok a
      → (expired n o.now h.config.nonce_ttl ≡ false)
        × (cert : Certificate) × IsAuthenticated p
            (validator_of h)
            token
            o.moment
            n.base64_encoded_nonce
            cert
  logged_in h token o n a done =
      elim (Result-cases
        (Validate.validate p (validator_of h) (some token) o.moment n.base64_encoded_nonce)) [
          | inr (f, invalid) ↦ absurd (ground (arith, invalid))
          | inl (cert, valid) ↦ (
            ground (arith, valid),
            cert,
            ((validate_iff p (validator_of h) token o.moment n.base64_encoded_nonce cert).0
                valid).1,
          )
        ]

  pub challenge_answered :
      (cfg : Configuration) (size : ℕ) (s : InMemoryStore Context) (h : Handler Private Public S)
      (http : Http) (now : Time) (drawn : Random) (buf : Bytes) (k : Text)
      → Keeps ops cfg size s h
      → IsValid s
      → s.session_key ≡ session_key
      → k ≢ []
      → InSession p cfg http k
      → drawn size ≡ ok buf
      → ((serve p transport e json points ops h (get_challenge http now drawn)).0.body
          ≡ challenge_body (ok (record { nonce = p.base64.encode_std buf })))
        × (nonce_of (run s (calls p cfg size (get_challenge http now drawn))) k
            ≡ some (nonce_at p now buf))
  unfolding serve calls run step challenge generate_and_store_nonce
  challenge_answered cfg size s h http now drawn buf k keeps valid key named (c, found) read =
      let keyed : s.session_key (some k) ≡ ok k =
        ap (λ f. f (some k)) key ∙ session_key_of k named in
      let put = refines_map s (some k) k now (nonce_at p now buf) valid keyed in
      (
        rw (keeps.config, found, keeps.nonce_size, read, keeps.store, keeps.nonces, put.0) refl,
        rw (found, read) (put.1 k ∙ ground (arith, text_eq_iff k k)),
      )

  -- A nonce that has not expired lets in whom it authenticates.
  pub let_in :
      (h : Handler Private Public S) (token : AuthToken) (o : Outside) (n : ChallengeNonce)
      (cert : Certificate)
      → expired n o.now h.config.nonce_ttl ≡ false
      → n.base64_encoded_nonce ≢ []
      → IsAuthenticated p (validator_of h) token o.moment n.base64_encoded_nonce cert
      → log_in p e json h token (ok n) o ≡ respond p e json h.settings.assertion_issuer cert o
  let_in h token o n cert fresh filled authentic =
      rw
        (
          fresh,
          (validate_iff p (validator_of h) token o.moment n.base64_encoded_nonce cert).1
              (filled, authentic),
        )
        refl

module _ (p : Platform) (size : ℕ) (k : Text) (cfg : Configuration) where
  -- The nonce of a session is there until the next request that concerns it.
  pub still_there :
      (s : InMemoryStore Context) (r : Request) (n : ChallengeNonce) (rs : List Request)
      → IsValid s
      → s.session_key ≡ session_key
      → s.ttl ≡ cfg.nonce_ttl
      → nonce_of (run s (calls p cfg size r)) k ≡ some n
      → All (Leaves p size k cfg n) rs
      → k ≢ []
      → (get_and_remove (run s (all_calls p cfg size (r ∷ rs))) (some k)).0 ≡ ok n
  unfolding all_calls
  still_there s r n rs valid key lasts put leaves named =
      let first = run s (calls p cfg size r) in
      let t = run first (all_calls p cfg size rs) in
      let first_valid = run-IsValid s (calls p cfg size r) valid in
      let keyed : t.session_key (some k) ≡ ok k =
        ap (λ f. f (some k))
          (session_key-run first (all_calls p cfg size rs)
            ∙ session_key-run s (calls p cfg size r)
            ∙ key)
        ∙ session_key_of k named in
      let held =
        run-Spares first (all_calls p cfg size rs) session_key cfg.nonce_ttl k n first_valid
          (session_key-run s (calls p cfg size r) ∙ key) (ttl-run s (calls p cfg size r) ∙ lasts)
          (all_calls-Spares p size k cfg n rs leaves) put in
      ap (λ u. (get_and_remove u (some k)).0)
        (run-append s (calls p cfg size r) (all_calls p cfg size rs))
      ∙ (refines_map t (some k) k zero_time n
          (run-IsValid first (all_calls p cfg size rs) first_valid) keyed).2
      ∙ ap answer_of held
