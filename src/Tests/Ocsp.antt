-- ===== src/Tests/Ocsp.antt =====
-- OCSP checks on the small platform.
use go_web_eid.Common.{
  false, ◌≡◌, refl, inl, Option, none, some, [], ◌∷◌, pos, ◌⊎◌, ◌+ℤ◌, ◌-ℤ◌, Any, arith,
}
use go_web_eid.Go.Text.{Bytes, text_eq, trim_suffix, to_lower, trim_space}
use go_web_eid.Go.Time.{before, after, add, add_duration, is_zero, negate, saturate, sub}
use go_web_eid.Exceptions.{ok, err, error_code, ocsp_request_failed, err_certificate_revoked}
use go_web_eid.Certificate.X509.{Certificate}
use go_web_eid.Ocsp.Options.{Designated}
use go_web_eid.Ocsp.Request.{
  Response, build_request, parse_and_verify, response_nonce, nonce_in, good, revoked,
}
use go_web_eid.Ocsp.Responder.{
  aia_ocsp_url, resolve_responder, is_responder_allowed, any_allows, entry_allows, equal_fold_trim,
  is_nonce_disabled,
}
use go_web_eid.Ocsp.Responder.Allowed.{Names, is_responder_allowed_iff}
use go_web_eid.Ocsp.Responder.Laws.{Supports, FirstUrl, resolve_responder_allowed}
use go_web_eid.Ocsp.Freshness.{check_freshness}
use go_web_eid.Ocsp.Freshness.Laws.{check_freshness_iff}
use go_web_eid.Ocsp.Check.{check, exchange, judge}
use go_web_eid.Ocsp.Check.Serial.{relabelled, check-relabelled}
use go_web_eid.Ocsp.Check.Laws.{Repeats, Answered, check_sound, check-error}
use go_web_eid.Tests.World.{site, parse_url, unicode, card, ca, ocsp, checker, answered}

check_freshness_iff_example :
    check_freshness (checker (1 ∷ [])) (answered (1 ∷ [])) (pos 50) ≡ ok tt
unfolding add ◌+ℤ◌
check_freshness_iff_example =
    (check_freshness_iff (checker (1 ∷ [])) (answered (1 ∷ [])) (pos 50) (omega arith, omega arith)
        (omega arith, omega arith)).1
      (omega arith, inl refl, omega arith)

fresh : (body : Bytes) → check_freshness (checker body) (answered body) (pos 50) ≡ ok tt
unfolding check_freshness add ◌+ℤ◌ ◌-ℤ◌ add_duration is_zero negate saturate sub before after
fresh body = refl

-- A check that passes, and one that fails as revoked.
pub checked : check ocsp unicode parse_url (checker (1 ∷ [])) card ca (ok (5 ∷ [])) (pos 50) ≡ ok tt
unfolding check resolve_responder aia_ocsp_url is_responder_allowed any_allows entry_allows
    equal_fold_trim text_eq to_lower trim_suffix trim_space exchange is_nonce_disabled build_request
    parse_and_verify judge response_nonce nonce_in
checked = rw (fresh (1 ∷ []))

refused :
    check ocsp unicode parse_url (checker (0 ∷ [])) card ca (ok (5 ∷ [])) (pos 50)
    ≡ err err_certificate_revoked
unfolding check resolve_responder aia_ocsp_url is_responder_allowed any_allows entry_allows
    equal_fold_trim text_eq to_lower trim_suffix trim_space exchange is_nonce_disabled build_request
    parse_and_verify judge response_nonce nonce_in
refused = rw (fresh (0 ∷ []))

resolved : resolve_responder unicode parse_url (checker (1 ∷ [])) card ca ≡ ok (site, none, false)
unfolding resolve_responder aia_ocsp_url is_responder_allowed any_allows entry_allows
    equal_fold_trim text_eq to_lower trim_suffix trim_space is_nonce_disabled
resolved = refl

is_responder_allowed_iff_example : (site ∷ [] ≡ []) ⊎ Any (Names unicode parse_url site) (site ∷ [])
unfolding is_responder_allowed any_allows entry_allows equal_fold_trim text_eq to_lower trim_suffix
    trim_space
is_responder_allowed_iff_example =
    (is_responder_allowed_iff unicode parse_url (site ∷ []) site).0 refl

resolve_responder_allowed_example :
    ((d : Designated) × (◌≡◌ {A = Option Designated} none (some d))
      × Supports d ca
      × (site ≡ d.url)
      × (none ≡ d.responder_certificate))
    ⊎ (((◌≡◌ {A = Option Designated} none none)
          ⊎ ((d : Designated) × (◌≡◌ {A = Option Designated} none (some d)) × (¬ Supports d ca)))
        × FirstUrl card site
        × (◌≡◌ {A = Option Certificate} none none)
        × ((site ∷ [] ≡ []) ⊎ Any (Names unicode parse_url site) (site ∷ [])))
resolve_responder_allowed_example =
    resolve_responder_allowed unicode parse_url (checker (1 ∷ [])) card ca (site, none, false)
      resolved

check_sound_example :
    (nonce : Option Bytes) × (resp : Response) × Answered ocsp unicode parse_url
      (checker (1 ∷ []))
      card
      ca
      (ok (5 ∷ []))
      nonce
      resp
    × Repeats nonce resp
    × (check_freshness (checker (1 ∷ [])) resp (pos 50) ≡ ok tt)
    × (resp.status ≡ good)
check_sound_example =
    check_sound ocsp unicode parse_url (checker (1 ∷ [])) card ca (ok (5 ∷ [])) (pos 50) checked

check-error_example :
    (error_code err_certificate_revoked ≡ some ocsp_request_failed)
    ⊎ ((err_certificate_revoked ≡ err_certificate_revoked)
        × ((nonce : Option Bytes) × (resp : Response) × Answered ocsp unicode parse_url
              (checker (0 ∷ []))
              card
              ca
              (ok (5 ∷ []))
              nonce
              resp
            × (check_freshness (checker (0 ∷ [])) resp (pos 50) ≡ ok tt)
            × (resp.status ≡ revoked)))
check-error_example =
    check-error ocsp unicode parse_url (checker (0 ∷ [])) card ca (ok (5 ∷ [])) (pos 50)
      err_certificate_revoked refused

check-relabelled_example :
    check (relabelled 7 ocsp) unicode parse_url (checker (1 ∷ [])) card ca (ok (5 ∷ [])) (pos 50)
    ≡ check ocsp unicode parse_url (checker (1 ∷ [])) card ca (ok (5 ∷ [])) (pos 50)
check-relabelled_example =
    check-relabelled ocsp unicode parse_url 7 (checker (1 ∷ [])) card ca (ok (5 ∷ [])) (pos 50)
