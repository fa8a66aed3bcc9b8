-- ===== src/Handler/Concurrent/Tally.antt =====
-- Logins and challenges of one session, counted.
use go_web_eid.Common.{
  ℕ, zero, suc, ◌+◌, ◌≤◌, ◌≡◌, ◌≢◌, Option, none, some, List, [], ◌∷◌, arith, if◌then◌else◌,
}
use go_web_eid.Go.Text.{Text, text_eq, text_eq_iff}
use go_web_eid.Exceptions.{Result, ok, err, is_ok}
use go_web_eid.Platform.{Platform}
use go_web_eid.Token.{AuthToken}
use go_web_eid.Certificate.X509.{Certificate}
use go_web_eid.Nonce.Memory.Counting.{weight}
use go_web_eid.Ocsp.Options.{Checker}
use go_web_eid.Validator.Validate.{Validator, Moment}
use go_web_eid.Validator.Validate.Loads.{checked}
use go_web_eid.Validator.Validate.Loads
use go_web_eid.Signing.Signer.{Signer}
use go_web_eid.Signing.Signer.Loads.{admitted, chained}
use go_web_eid.Signing.SigningCertificate.{as_cause}
use go_web_eid.Handler.Configuration.{Configuration}
use go_web_eid.Handler.Session.{Session, session_key}
use go_web_eid.Handler.Signing.{SigningCertificateRequest, SigningCertificateResponse}
use go_web_eid.Handler.Routes.{Request, get_challenge, post_login, Response, Body, login_body}
use go_web_eid.Handler.Routes.Calls.{session_for}
use go_web_eid.Handler.Concurrent.Task.{Task, done, on_result_elim}
use go_web_eid.Handler.Concurrent.Requests.{
  revocation_task, validate_task, status_task, prepare_task, certificate_task,
}
use go_web_eid.Handler.Concurrent.Credit.{Pays}

-- Whether a request is one of the session `k`.
abbrev pub session_weight : Text → Result Session → ℕ
session_weight k (err f) = 0
session_weight k (ok s) = if text_eq k s.id then 1 else 0

-- Whether a body tells of a user.
abbrev pub success : Body → ℕ
success (login_body r) = if is_ok r.answer then 1 else 0
success _ = 0

-- A success of a request that counts.
abbrev pub counted : ℕ → Body → ℕ
counted zero b = 0
counted (suc w) b = success b

module _ (p : Platform) (cfg : Configuration) (k : Text) where
  abbrev pub challenge_weight : Request → ℕ
  challenge_weight (get_challenge http now drawn) = session_weight k (session_for p cfg http)
  challenge_weight _ = 0

  abbrev pub login_weight : Request → ℕ
  login_weight (post_login http body o) = session_weight k (session_for p cfg http)
  login_weight _ = 0

  -- The challenges of the session among some requests.
  unfoldable pub challenges : List Request → ℕ
  challenges [] = 0
  challenges (r ∷ rs) = challenge_weight r + challenges rs

  abbrev pub answered : Request → Task Response → ℕ
  answered r (done resp) = counted (login_weight r) resp.body
  answered r _ = 0

  -- The logins of the session that have been answered with a user.
  unfoldable pub successful_logins : List Request → List (Task Response) → ℕ
  successful_logins (r ∷ rs) (t ∷ ts) = answered r t + successful_logins rs ts
  successful_logins _ _ = 0

pub counted-le : (w : ℕ) (b : Body) → w ≤ 1 → counted w b ≤ w
counted-le zero b h = omega arith
counted-le (suc w) b h = ground arith

pub key_weight :
    (k id : Text) → k ≢ [] → weight k (session_key (some id)) ≡ (if text_eq k id then 1 else 0)
unfolding session_key
key_weight k id named = ground (arith, text_eq_iff k id)

module _ (p : Platform) (k : Text) (win : Response → ℕ) (c : ℕ) where
  abbrev pub Affords : Task Response → Type 0
  Affords t = Pays k win t c

  Pays-revocation_task :
      (o : Option Checker) (cert : Certificate) (m : Moment)
      (next : Result (Unit {0}) → Task Response)
      → ((r : Result (Unit {0})) → Affords (next r))
      → Affords (revocation_task p o cert m next)
  Pays-revocation_task none cert m next all = all (ok tt)
  Pays-revocation_task (some o) cert m next all = λ ts. all _

  Pays-status_task :
      (o : Option Checker) (cert : Certificate) (m : Moment)
      (next : Result (Unit {0}) → Task Response)
      → ((r : Result (Unit {0})) → Affords (next r))
      → Affords (status_task p o cert m next)
  Pays-status_task none cert m next all = all (ok tt)
  Pays-status_task (some o) cert m next all = λ ts. all _

  pub Pays-validate_task :
      (v : Validator) (token : Option AuthToken) (m : Moment) (challenge : Text)
      (next : Result Certificate → Task Response)
      → ((r : Result Certificate) → Affords (next r))
      → Affords (validate_task p v token m challenge next)
  unfolding validate_task
  Pays-validate_task v token m challenge next all =
      on_result_elim Affords (checked p v token m challenge) _ _ (λ f e. all _)
        (λ (t, cert) e ts.
          on_result_elim Affords (Loads.chained p ts cert m) _ _ (λ f e. all _)
            (λ u e.
              Pays-revocation_task v.ocsp_checker cert m _
                (λ status. on_result_elim Affords status _ _ (λ f e. all _) (λ w e. all _))))

  pub Pays-certificate_task :
      (s : Signer) (body : Result SigningCertificateRequest) (m : Moment)
      (next : Result SigningCertificateResponse → Task Response)
      → ((r : Result SigningCertificateResponse) → Affords (next r))
      → Affords (certificate_task p s body m next)
  unfolding prepare_task
  Pays-certificate_task s body m next all =
      on_result_elim Affords body _ _ (λ f e. all _)
        (λ req e.
          on_result_elim Affords (as_cause (p.base64.decode_std req.certificate)) _ _ (λ f e. all _)
            (λ der e.
              on_result_elim Affords (admitted p s m der) _ _ (λ f e. all _)
                (λ cert e ts.
                  on_result_elim Affords (chained p ts cert m) _ _ (λ f e. all _)
                    (λ u e. Pays-status_task s.ocsp_checker cert m _ (λ status.
                      on_result_elim Affords status _ _ (λ f e. all _) (λ w e. all _))))))
