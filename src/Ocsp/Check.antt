-- ===== src/Ocsp/Check.antt =====
-- ocsp/checker.go: Check. The nonce that rand.Read would draw is an argument.
pub mod Laws
pub mod Serial
use go_web_eid.Ocsp.Errors.{err_unknown_status, err_nonce_mismatch}
use go_web_eid.Common.{Bool, true, false, not, Option, none, some, if◌then◌else◌}
use go_web_eid.Go.Text.{Text, Bytes, Unicode, text_eq}
use go_web_eid.Go.Time.{Time}
use go_web_eid.Go.Url.{ParseUrl}
use go_web_eid.Exceptions.{plain, Result, ok, err, ◌>>=◌, ◌>>◌, err_certificate_revoked}
use go_web_eid.Certificate.X509.{Certificate}
use go_web_eid.Ocsp.Options.{Checker}
use go_web_eid.Ocsp.Request.{
  OcspCodec, Response, Status, good, revoked, unknown, build_request, parse_and_verify,
  response_nonce, wrap_ocsp_error,
}
use go_web_eid.Ocsp.Responder.{resolve_responder, Resolved}
use go_web_eid.Ocsp.Freshness.{check_freshness}

-- An error on the way, as the typed error.
abbrev pub or_failed {ℓ} : {A : Type ℓ} → Result A → Result A
or_failed (ok a) = ok a
or_failed (err e) = err (wrap_ocsp_error e)

-- Does the response repeat the request's nonce, if both have one?
abbrev pub nonce_agrees : Option Bytes → Option Bytes → Bool
nonce_agrees none got = true
nonce_agrees (some nonce) none = true
nonce_agrees (some nonce) (some got) = text_eq got nonce

abbrev pub by_status : Status → Result (Unit {0})
by_status good = ok tt
by_status revoked = err err_certificate_revoked
by_status unknown = err (wrap_ocsp_error err_unknown_status)

-- The nonce of the request: none for a responder without support, else what was drawn.
abbrev pub request_nonce : Bool → Result Bytes → Result (Option Bytes)
request_nonce true drawn = ok none
request_nonce false (ok nonce) = ok (some nonce)
request_nonce false (err e) = err (wrap_ocsp_error e)

module _ (codec : OcspCodec) (u : Unicode) (parse : ParseUrl) where
  -- What Check does with a parsed and verified response.
  unfoldable pub judge : Checker → Option Bytes → Time → Response → Result (Unit {0})
  judge c nonce now resp =
      if not (nonce_agrees nonce (response_nonce resp))
      then err (wrap_ocsp_error err_nonce_mismatch)
      else do check_freshness c resp now; by_status resp.status

  -- The exchange with the responder that was chosen.
  unfoldable pub exchange :
      Checker
      → Certificate
      → Certificate
      → Result Bytes
      → Resolved
      → Result (Option Bytes × Response)
  exchange c cert issuer drawn (url, responder, nonce_disabled) = do
    nonce ← request_nonce nonce_disabled drawn
    request ← or_failed (build_request codec cert issuer nonce)
    answer ← or_failed (c.client url request c.request_timeout)
    resp ← or_failed (parse_and_verify codec answer issuer responder)
    ok (nonce, resp)

  -- Check
  unfoldable pub check :
      Checker → Certificate → Certificate → Result Bytes → Time → Result (Unit {0})
  check c cert issuer drawn now = do
    resolved ← resolve_responder u parse c cert issuer
    (nonce, resp) ← exchange c cert issuer drawn resolved
    judge c nonce now resp
