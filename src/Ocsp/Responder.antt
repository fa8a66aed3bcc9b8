-- ===== src/Ocsp/Responder.antt =====
-- ocsp/checker.go, ocsp/aia.go: which responder is asked, and the allowlist for the URLs that come
-- out of a certificate.
pub mod Allowed
pub mod Laws
use go_web_eid.Ocsp.Errors.{err_no_ocsp_responder, err_responder_not_allowed}
use go_web_eid.Common.{
  Bool, true, false, ◌&&◌, ◌||◌, not, Option, none, some, List, [], ◌∷◌, if◌then◌else◌, is_empty,
}
use go_web_eid.Go.Text.{Text, Unicode, text_eq, to_lower, trim_space, trim_suffix, contains_scheme}
use go_web_eid.Go.Url.{Url, ParseUrl}
use go_web_eid.Exceptions.{plain, Result, ok, err}
use go_web_eid.Certificate.X509.{Certificate}
use go_web_eid.Ocsp.Options.{Designated, supports, Checker}
use go_web_eid.Ocsp.Request.{wrap_ocsp_error}

-- AIAOCSPURL
unfoldable pub aia_ocsp_url : Certificate → Result Text
aia_ocsp_url cert = elim cert.ocsp_server [ [] ↦ err err_no_ocsp_responder | url ∷ _ ↦ ok url ]

-- hasScheme
abbrev pub has_scheme : Text → Bool
has_scheme = contains_scheme

-- isNonceDisabled
unfoldable pub is_nonce_disabled : List Text → Text → Bool
is_nonce_disabled [] url = false
is_nonce_disabled (v ∷ vs) url = text_eq v url || is_nonce_disabled vs url

-- The responder's URL, the certificate that verifies it, and whether it has no nonce support.
abbrev pub Resolved : Type 0
Resolved = Text × Option Certificate × Bool

module _ (u : Unicode) where
  -- The local function of equalFoldTrim.
  abbrev pub norm : Text → Text
  norm s = to_lower u (trim_suffix b'/' (trim_space u s))

  -- equalFoldTrim
  unfoldable pub equal_fold_trim : Text → Text → Bool
  equal_fold_trim a b = text_eq (norm a) (norm b)

  module _ (parse : ParseUrl) where
    abbrev pub host_in : Result Url → Text
    host_in (err e) = []
    host_in (ok v) = if is_empty v.host then [] else to_lower u v.hostname

    -- hostOf
    unfoldable pub host_of : Text → Text
    host_of raw = host_in (parse (trim_space u raw))

    -- One entry of the allowlist against the responder's URL and host.
    unfoldable pub entry_allows : Text → Text → Text → Bool
    entry_allows url host allowed =
        equal_fold_trim allowed url
        || ((not (is_empty (host_of allowed)) && text_eq (host_of allowed) host)
            || (not (has_scheme allowed) && equal_fold_trim allowed host))

    -- The loop of isResponderAllowed.
    unfoldable pub any_allows : Text → Text → List Text → Bool
    any_allows url host [] = false
    any_allows url host (allowed ∷ rest) = entry_allows url host allowed || any_allows url host rest

    -- isResponderAllowed
    unfoldable pub is_responder_allowed : List Text → Text → Bool
    is_responder_allowed allowed url =
        if is_empty allowed then true else any_allows url (host_of url) allowed

    abbrev pub from_aia : Checker → Result Text → Result Resolved
    from_aia c (err e) = err (wrap_ocsp_error e)
    from_aia c (ok url) =
        if not (is_responder_allowed c.allowed_responder_urls url)
        then err (wrap_ocsp_error err_responder_not_allowed)
        else ok (url, none, is_nonce_disabled c.nonce_disabled_urls url)

    abbrev designated_or : Checker → Certificate → Certificate → Option Designated → Result Resolved
    designated_or c cert issuer none = from_aia c (aia_ocsp_url cert)
    designated_or c cert issuer (some d) =
        if supports d issuer
        then ok (d.url, d.responder_certificate, d.nonce_disabled)
        else from_aia c (aia_ocsp_url cert)

    -- resolveResponder
    unfoldable pub resolve_responder : Checker → Certificate → Certificate → Result Resolved
    resolve_responder c cert issuer = designated_or c cert issuer c.designated
