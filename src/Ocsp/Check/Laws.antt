-- ===== src/Ocsp/Check/Laws.antt =====
-- What an OCSP check that passes has established, and the errors of one that fails.
use go_web_eid.Common.{true, ◌≡◌, refl, sym, ap, ◌∙◌, ◌⊎◌, inl, inr, Option, none, some, arith}
use go_web_eid.Go.Text.{Bytes, Unicode, text_eq_iff}
use go_web_eid.Go.Time.{Time}
use go_web_eid.Go.Url.{ParseUrl}
use go_web_eid.Exceptions.{
  GoError, Result, ok, err, >>=-eq-ok, Result-cases, error_code, ocsp_request_failed,
  err_certificate_revoked,
}
use go_web_eid.Certificate.X509.{Certificate}
use go_web_eid.Ocsp.Options.{Checker}
use go_web_eid.Ocsp.Request.{
  OcspCodec, Response, good, revoked, build_request, parse_and_verify, response_nonce,
}
use go_web_eid.Ocsp.Responder.{resolve_responder, Resolved}
use go_web_eid.Ocsp.Responder.Laws.{resolve_responder-error}
use go_web_eid.Ocsp.Freshness.Laws.{check_freshness-error}
use go_web_eid.Ocsp.Freshness.{check_freshness}
use go_web_eid.Ocsp.Check.{or_failed, request_nonce, nonce_agrees, judge, exchange, check}

-- No nonce was sent, or the response has none, or it has the one that was sent.
abbrev pub Repeats : Option Bytes → Response → Type 0
Repeats nonce resp = (nonce ≡ none) ⊎ ((response_nonce resp ≡ none) ⊎ (response_nonce resp ≡ nonce))

nonce_agrees-true :
    (nonce got : Option Bytes)
    → nonce_agrees nonce got ≡ true
    → (nonce ≡ none) ⊎ ((got ≡ none) ⊎ (got ≡ nonce))
nonce_agrees-true none got h = inl refl
nonce_agrees-true (some n) none h = inr (inl refl)
nonce_agrees-true (some n) (some got) h = inr (inr (ap some ((text_eq_iff got n).0 h)))

or_failed-eq-ok {ℓ} : {A : Type ℓ} (r : Result A) (a : A) → or_failed r ≡ ok a → r ≡ ok a
or_failed-eq-ok r a h = ground arith

module _ (codec : OcspCodec) (u : Unicode) (parse : ParseUrl) where
  -- A verified answer to a request for the certificate, from the responder that was resolved; which
  -- serial number the answer has is left open.
  pub record Answered (c : Checker) (cert issuer : Certificate) (drawn : Result Bytes)
      (nonce : Option Bytes) (resp : Response) : Type 0 where
    pub resolved : Resolved
    pub from : resolve_responder u parse c cert issuer ≡ ok resolved
    pub nonce_sent : request_nonce resolved.2 drawn ≡ ok nonce
    pub request : Bytes
    pub built : build_request codec cert issuer nonce ≡ ok request
    pub answer : Bytes
    pub sent : c.client resolved.0 request c.request_timeout ≡ ok answer
    pub verified : parse_and_verify codec answer issuer resolved.1 ≡ ok resp

  exchange_sound :
      (c : Checker) (cert issuer : Certificate) (drawn : Result Bytes) (r : Resolved)
      (sent_nonce : Option Bytes) (resp : Response)
      → resolve_responder u parse c cert issuer ≡ ok r
      → exchange codec u parse c cert issuer drawn r ≡ ok (sent_nonce, resp)
      → Answered c cert issuer drawn sent_nonce resp
  unfolding exchange
  exchange_sound c cert issuer drawn r sent_nonce resp from h =
      let (n, drew, h1) = >>=-eq-ok _ _ h in
      let (request, built, h2) = >>=-eq-ok _ _ h1 in
      let (answer, sent, h3) = >>=-eq-ok _ _ h2 in
      let (got, verified, h4) = >>=-eq-ok _ _ h3 in
      let same_nonce : n ≡ sent_nonce = ground arith in
      let same_resp : got ≡ resp = ground arith in
      record {
        resolved = r;
        from = from;
        nonce_sent = drew ∙ ap ok same_nonce;
        request = request;
        built = or_failed-eq-ok _ request (
            ap (λ (o : Option Bytes). or_failed (build_request codec cert issuer o))
              (sym same_nonce)
            ∙ built);
        answer = answer;
        sent = or_failed-eq-ok _ answer sent;
        verified = or_failed-eq-ok _ got verified ∙ ap ok same_resp;
      }

  judge_sound :
      (c : Checker) (nonce : Option Bytes) (now : Time) (resp : Response)
      → judge codec u parse c nonce now resp ≡ ok tt
      → Repeats nonce resp × (check_freshness c resp now ≡ ok tt) × (resp.status ≡ good)
  unfolding judge
  judge_sound c sent now resp h =
      let (agrees, fresh, is_good) : (nonce_agrees sent (response_nonce resp) ≡ true)
          × (check_freshness c resp now ≡ ok tt)
          × (resp.status ≡ good) =
        ground arith in
      (nonce_agrees-true sent (response_nonce resp) agrees, fresh, is_good)

  -- A check passes only on an answer of the resolved responder to a request for this certificate,
  -- verified by the responder's certificate or the issuer, whose nonce, if it has one and one was
  -- sent, is the request's, that is fresh, and whose status is good. The serial number in the
  -- answer may be any.
  pub check_sound :
      (c : Checker) (cert issuer : Certificate) (drawn : Result Bytes) (now : Time)
      → check codec u parse c cert issuer drawn now ≡ ok tt
      → (nonce : Option Bytes) × (resp : Response) × Answered c cert issuer drawn nonce resp
        × Repeats nonce resp
        × (check_freshness c resp now ≡ ok tt)
        × (resp.status ≡ good)
  unfolding check
  check_sound c cert issuer drawn now h =
      let (r, from, h1) = >>=-eq-ok _ _ h in
      let (p, asked, judged) = >>=-eq-ok _ _ h1 in
      let (agrees, fresh, is_good) = judge_sound c p.0 now p.1 judged in
      (p.0, p.1, exchange_sound c cert issuer drawn r p.0 p.1 from asked, agrees, fresh, is_good)

  exchange-error :
      (c : Checker) (cert issuer : Certificate) (drawn : Result Bytes) (r : Resolved) (e : GoError)
      → exchange codec u parse c cert issuer drawn r ≡ err e
      → error_code e ≡ some ocsp_request_failed
  unfolding exchange
  exchange-error c cert issuer drawn r e h = ground arith

  judge-error :
      (c : Checker) (sent : Option Bytes) (now : Time) (resp : Response) (e : GoError)
      → judge codec u parse c sent now resp ≡ err e
      → (error_code e ≡ some ocsp_request_failed)
        ⊎ ((e ≡ err_certificate_revoked)
            × (check_freshness c resp now ≡ ok tt)
            × (resp.status ≡ revoked))
  unfolding judge
  judge-error c sent now resp e h = ground (arith, check_freshness-error c resp now e)

  -- A check that fails is a "revoked", and then the verified answer is fresh and says so, or else a
  -- "request failed".
  pub check-error :
      (c : Checker) (cert issuer : Certificate) (drawn : Result Bytes) (now : Time) (e : GoError)
      → check codec u parse c cert issuer drawn now ≡ err e
      → (error_code e ≡ some ocsp_request_failed)
        ⊎ ((e ≡ err_certificate_revoked)
            × ((nonce : Option Bytes) × (resp : Response) × Answered c cert issuer drawn nonce resp
                × (check_freshness c resp now ≡ ok tt)
                × (resp.status ≡ revoked)))
  unfolding check
  check-error c cert issuer drawn now e h =
      elim (Result-cases (resolve_responder u parse c cert issuer)) [
        | inr (f, failed) ↦ inl (ground (arith, resolve_responder-error u parse c cert issuer e))
        | inl (r, from) ↦ elim (Result-cases (exchange codec u parse c cert issuer drawn r)) [
          | inr (f, failed) ↦ inl (ground (arith, exchange-error c cert issuer drawn r e))
          | inl (p, asked) ↦ elim (judge-error c p.0 now p.1 e (ground arith)) [
            | inl failed ↦ inl failed
            | inr (is_revoked, fresh, status) ↦ inr (
              is_revoked,
              (p.0, p.1, exchange_sound c cert issuer drawn r p.0 p.1 from asked, fresh, status),
            )
          ]
        ]
      ]
