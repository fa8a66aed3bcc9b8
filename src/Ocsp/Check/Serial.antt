-- ===== src/Ocsp/Check/Serial.antt =====
-- A check does not compare the serial number of the response with the certificate's.
use go_web_eid.Common.{ℕ, ◌≡◌, refl, Option, none, some, arith, inl, inr}
use go_web_eid.Go.Text.{Bytes, Unicode}
use go_web_eid.Go.Time.{Time}
use go_web_eid.Go.Url.{ParseUrl}
use go_web_eid.Exceptions.{Result, ok, err, Result-cases}
use go_web_eid.Certificate.X509.{Certificate}
use go_web_eid.Ocsp.Options.{Checker}
use go_web_eid.Ocsp.Request.{OcspCodec, Response, build_request, parse_and_verify, response_nonce}
use go_web_eid.Ocsp.Responder.{resolve_responder}
use go_web_eid.Ocsp.Freshness.{check_freshness}
use go_web_eid.Ocsp.Check.{request_nonce, judge, exchange, check}

-- The same response, about the certificate with another serial number.
abbrev pub relabel : ℕ → Result Response → Result Response
relabel n (ok resp) = ok (record resp { serial_number = n })
relabel n (err e) = err e

-- A parser whose responses all have this serial number, and are otherwise as before.
abbrev pub relabelled : ℕ → OcspCodec → OcspCodec
relabelled n codec = record codec {
  parse_response = λ body issuer. relabel n (codec.parse_response body issuer);
  parse_response_by = λ body responder. relabel n (codec.parse_response_by body responder);
}

module _ (codec : OcspCodec) (u : Unicode) (parse : ParseUrl) (n : ℕ) where
  build_request-relabelled :
      (cert issuer : Certificate) (sent : Option Bytes)
      → build_request (relabelled n codec) cert issuer sent ≡ build_request codec cert issuer sent
  unfolding build_request
  build_request-relabelled cert issuer sent = ground arith

  parse_and_verify-relabelled :
      (body : Bytes) (issuer : Certificate) (responder : Option Certificate)
      → parse_and_verify (relabelled n codec) body issuer responder
        ≡ relabel n (parse_and_verify codec body issuer responder)
  unfolding parse_and_verify
  parse_and_verify-relabelled body issuer none = refl
  parse_and_verify-relabelled body issuer (some responder) = refl

  judge-relabelled :
      (c : Checker) (sent : Option Bytes) (now : Time) (resp : Response)
      → judge (relabelled n codec) u parse c sent now (record resp { serial_number = n })
        ≡ judge codec u parse c sent now resp
  unfolding judge response_nonce check_freshness
  judge-relabelled c sent now resp = refl

  -- Whatever serial number the responses have, a check answers the same: it passes on a good
  -- response about another certificate as on one about this certificate.
  pub check-relabelled :
      (c : Checker) (cert issuer : Certificate) (drawn : Result Bytes) (now : Time)
      → check (relabelled n codec) u parse c cert issuer drawn now
        ≡ check codec u parse c cert issuer drawn now
  unfolding check exchange
  check-relabelled c cert issuer drawn now =
      elim (Result-cases (resolve_responder u parse c cert issuer)) [
        | inr (e, failed) ↦ rw (failed) refl
        | inl ((url, responder, disabled), from) ↦
            elim (Result-cases (request_nonce disabled drawn)) [
              | inr (e, failed) ↦ rw (from, failed) refl
              | inl (nonce, drew) ↦ elim (Result-cases (build_request codec cert issuer nonce)) [
                | inr (e, failed) ↦
                    rw (from, drew, build_request-relabelled cert issuer nonce, failed) refl
                | inl (request, built) ↦
                    elim (Result-cases (c.client url request c.request_timeout)) [
                      | inr (e, failed) ↦
                          rw (from, drew, build_request-relabelled cert issuer nonce, built, failed)
                            refl
                      | inl (body, sent) ↦
                          elim (Result-cases (parse_and_verify codec body issuer responder)) [
                            | inr (e, failed) ↦
                                rw
                                  (
                                    from,
                                    drew,
                                    build_request-relabelled cert issuer nonce,
                                    built,
                                    sent,
                                    parse_and_verify-relabelled body issuer responder,
                                    failed,
                                  )
                                  refl
                            | inl (resp, verified) ↦
                                rw
                                  (
                                    from,
                                    drew,
                                    build_request-relabelled cert issuer nonce,
                                    built,
                                    sent,
                                    parse_and_verify-relabelled body issuer responder,
                                    verified,
                                  )
                                  (judge-relabelled c nonce now resp)
                          ]
                    ]
              ]
            ]
      ]
