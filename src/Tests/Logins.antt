-- ===== src/Tests/Logins.antt =====
-- A challenge, a login, and the login once more.
use go_web_eid.Common.{false, ◌≡◌, refl, sym, ap, subst, ◌-ℤ◌, inl, none, List, [], ◌∷◌, pos, Any}
use go_web_eid.Go.Text.{Text, codes, text_eq}
use go_web_eid.Exceptions.{ok, err_challenge_nonce_not_found}
use go_web_eid.Nonce.Challenge.{ChallengeNonce, expired}
use go_web_eid.Validator.Validate.Laws.{IsAuthenticated}
use go_web_eid.Handler.Settings.{apply_options, default_settings, new_session_store}
use go_web_eid.Nonce.Memory.{put, new_in_memory_store}
use go_web_eid.Handler.Build.{validator_of}
use go_web_eid.Handler.Authentication.{LoginRequest, Outside, failed, respond, bare}
use go_web_eid.Handler.Routes.{
  Request, get_challenge, post_login, get_jwks, reload, challenge_body, login_body,
}
use go_web_eid.Handler.Routes.Calls.{nonce_at}
use go_web_eid.Handler.Routes.Login.{
  Started, after, answer, login_once, login_sound, login_complete,
}
use go_web_eid.Handler.Routes.Issued.{Issued}
use go_web_eid.Handler.Subject.{subject_from_certificate}
use go_web_eid.Signature.Algorithm.{sha256}
use go_web_eid.Certificate.X509.{Certificate}
use go_web_eid.Go.Text.{to_lower, trim_space, trim_suffix, trim_prefix, ends_with, contains_byte}
use go_web_eid.Go.Time.{before, sub, saturate}
use go_web_eid.Go.Time
use go_web_eid.Go.Map.{lookup}
use go_web_eid.Go.BigInt.{set_bytes}
use go_web_eid.Certificate.Checks.{
  check_validity, check_key_usage_for_authentication, has_ext_key_usage, check_disallowed_policies,
  extract_policies, any_shared,
}
use go_web_eid.Certificate.Trust
use go_web_eid.Signature.Algorithm.{hash_for}
use go_web_eid.Signature.Verify.{verify_with_key}
use go_web_eid.Signature.Verify
use go_web_eid.Token.{decode_certificate, decode_signature}
use go_web_eid.Handler.Routes.{serve_all}
use go_web_eid.Handler.Session.{
  ensure_session, origin_hostnames, host_matches_any, host_matches, valid_session_id, session_key,
}
use go_web_eid.Handler.Authentication.{challenge}
use go_web_eid.Nonce.Generator.{generate_and_store_nonce}
use go_web_eid.Tests.World.{platform, card}
use go_web_eid.Tests.Authentication.{token, moment}
use go_web_eid.Tests.Assertion.{ecdsa, json}
use go_web_eid.Tests.Routes.{
  os, transport, ops, points, random, cfg, options, handler, built, http, in_session,
}

abbrev pub login_request : LoginRequest
login_request = record { auth_token = token }

abbrev pub outside : Outside
outside = record {
  store_now = pos 50;
  now = pos 50;
  moment = moment;
  jti = ok (codes "id");
  issue_now = pos 50;
  entropy = [];
}

pub started : Started platform transport ecdsa json points ops os random cfg options handler
unfolding apply_options default_settings
started = (built, refl)

abbrev last : List Request
last = get_challenge http (pos 40) random ∷ get_jwks ∷ []

login_once_example :
    answer platform transport ecdsa json points ops
      (after platform transport ecdsa json points ops
        (after platform transport ecdsa json points ops handler last)
        (post_login http (ok login_request) outside ∷ get_jwks ∷ reload os ∷ []))
      (post_login http (ok login_request) outside)
    ≡ login_body (failed err_challenge_nonce_not_found)
login_once_example =
    login_once platform transport ecdsa json points ops os random cfg options handler last http http
      login_request login_request outside outside (codes "s") (get_jwks ∷ reload os ∷ []) started
      (λ e. cc) in_session in_session (λ h. h, (λ h. h, tt))

-- "bytes 5 and 6" in base64, which the token signs.
abbrev pub nonce : Text
nonce = 105 ∷ 106 ∷ []

same_checks :
    validator_of (after platform transport ecdsa json points ops handler last) ≡ handler.validator
unfolding validator_of serve_all ensure_session origin_hostnames host_matches_any host_matches
    to_lower trim_space trim_suffix trim_prefix ends_with contains_byte text_eq challenge
    generate_and_store_nonce valid_session_id default_settings put new_session_store
    new_in_memory_store session_key
same_checks = refl

no_issuer :
    (after platform transport ecdsa json points ops handler last).settings.assertion_issuer ≡ none
unfolding validator_of serve_all ensure_session origin_hostnames host_matches_any host_matches
    to_lower trim_space trim_suffix trim_prefix ends_with contains_byte text_eq challenge
    generate_and_store_nonce valid_session_id default_settings put new_session_store
    new_in_memory_store session_key
no_issuer = refl

fresh : expired (nonce_at platform (pos 40) (5 ∷ 6 ∷ [])) (pos 50) cfg.nonce_ttl ≡ false
unfolding expired sub saturate ◌-ℤ◌
fresh = refl

by_card : IsAuthenticated platform handler.validator token moment nonce card
unfolding decode_certificate decode_signature text_eq hash_for lookup check_validity
    check_key_usage_for_authentication Trust.verify before Time.after has_ext_key_usage
    Verify.verify verify_with_key set_bytes check_disallowed_policies extract_policies any_shared
by_card = record {
  der = 1 ∷ [];
  decoded = refl;
  parsed = refl;
  valid = refl;
  purpose = refl;
  policies = refl;
  trusted = refl;
  not_revoked = tt;
  signed = (sha256, refl, refl, (14 ∷ 7 ∷ [], refl, inl refl));
  named = λ e. cc;
}

authenticated :
    IsAuthenticated platform
      (validator_of (after platform transport ecdsa json points ops handler last))
      token
      moment
      nonce
      card
authenticated =
    subst (λ v. IsAuthenticated platform v token moment nonce card) (sym same_checks) by_card

login_complete_example :
    (answer platform transport ecdsa json points ops
        (after platform transport ecdsa json points ops handler [])
        (get_challenge http (pos 40) random)
      ≡ challenge_body (ok (record { nonce = nonce })))
    × (answer platform transport ecdsa json points ops
          (after platform transport ecdsa json points ops handler last)
          (post_login http (ok login_request) outside)
        ≡ login_body (
            respond platform ecdsa json
              (after platform transport ecdsa json points ops handler
                last).settings.assertion_issuer
              card
              outside))
unfolding serve_all
login_complete_example =
    login_complete platform transport ecdsa json points ops os random cfg options handler []
      (get_jwks ∷ []) http http (pos 40) random (5 ∷ 6 ∷ []) login_request outside (codes "s") card
      started refl (λ e. cc) in_session in_session refl (λ e. cc) (tt, tt) fresh authenticated

login_sound_example :
    (n : ChallengeNonce) × Any (Issued platform cfg 32 (codes "s") n) last
    × (expired n (pos 50) cfg.nonce_ttl ≡ false)
    × (cert : Certificate) × IsAuthenticated platform
        (validator_of (after platform transport ecdsa json points ops handler last))
        token
        moment
        n.base64_encoded_nonce
        cert
unfolding respond
login_sound_example =
    login_sound platform transport ecdsa json points ops os random cfg options handler last http
      login_request outside (codes "s")
      (respond platform ecdsa json
        (after platform transport ecdsa json points ops handler last).settings.assertion_issuer card
        outside)
      (bare (subject_from_certificate card)) started (λ e. cc) in_session login_complete_example.1
      (ap (λ i. (respond platform ecdsa json i card outside).answer) no_issuer)
