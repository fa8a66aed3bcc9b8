-- ===== src/Tests/Concurrent.antt =====
-- A challenge, a login and a reload of the trusted set, with their steps interleaved.
use go_web_eid.Common.{ℕ, ◌-ℤ◌, ◌≤◌, ◌≡◌, refl, some, none, List, [], ◌∷◌, pos, get_elem?}
use go_web_eid.Go.Text.{codes, text_eq}
use go_web_eid.Exceptions.{Result, ok, err_certificate_not_trusted}
use go_web_eid.Handler.Settings.{default_settings, new_session_store}
use go_web_eid.Handler.Authentication.{ValidateRequest, Reply, failed, respond, bare}
use go_web_eid.Handler.Build.{Handler}
use go_web_eid.Handler.Subject.{subject_from_certificate}
use go_web_eid.Handler.Routes.{
  Request, get_challenge, post_login, post_validate, reload, Response, login_body,
}
use go_web_eid.Handler.Concurrent.Task.{Task, done, interleave}
use go_web_eid.Handler.Concurrent.Requests.{tasks_of, plainly}
use go_web_eid.Handler.Concurrent.Outcome.{AnsweredFor, LoggedIn}
use go_web_eid.Handler.Concurrent.Logins.{login_among, validation_among}
use go_web_eid.Handler.Concurrent.Tally.{challenges, successful_logins}
use go_web_eid.Handler.Concurrent.Spending.{logins_le_challenges}
use go_web_eid.Go.Text.{to_lower, trim_space, trim_suffix, trim_prefix, ends_with, contains_byte}
use go_web_eid.Go.Time.{before, sub, saturate}
use go_web_eid.Go.Time
use go_web_eid.Go.Map.{lookup, insert, delete_if}
use go_web_eid.Nonce.Challenge.{expired}
use go_web_eid.Nonce.Memory.{put, get_and_remove, new_in_memory_store}
use go_web_eid.Handler.Session.{
  ensure_session, origin_hostnames, host_matches_any, host_matches, valid_session_id, session_key,
}
use go_web_eid.Handler.Concurrent.Requests.{validate_task}
use go_web_eid.Validator.Validate.{verify_signature, any_origin_signs}
use go_web_eid.Validator.Validate.Loads.{checked, finished}
use go_web_eid.Go.BigInt.{set_bytes}
use go_web_eid.Certificate.Checks.{
  check_validity, check_key_usage_for_authentication, has_ext_key_usage, check_disallowed_policies,
  extract_policies, any_shared,
}
use go_web_eid.Certificate.Subject.{subject_cn}
use go_web_eid.Certificate.Trust
use go_web_eid.Certificate.Trust.{
  load_certificates_from_pem, parse_blocks, new_trust_snapshot, fill_pool, issuer_of, first_issuer,
}
use go_web_eid.Handler.Trust.{load_trusted_cas}
use go_web_eid.Signature.Algorithm.{hash_for}
use go_web_eid.Signature.Verify.{verify_with_key}
use go_web_eid.Signature.Verify
use go_web_eid.Token.{decode_certificate, decode_signature}
use go_web_eid.Handler.Concurrent.Meanwhile.{reload_meanwhile}
use go_web_eid.Validator.Validate.Laws.{validate_iff}
use go_web_eid.Tests.World.{platform, card, trust, checker}
use go_web_eid.Tests.Assertion.{ecdsa, json}
use go_web_eid.Tests.Routes.{os, transport, ops, points, random, cfg, options, handler, http}
use go_web_eid.Tests.Authentication.{token, validator, moment, challenge, authenticated}
use go_web_eid.Tests.Logins.{login_request, outside, started, nonce}

abbrev validate_request : ValidateRequest
validate_request = record { auth_token = token; nonce = nonce }

abbrev requests : List Request
requests =
    get_challenge http (pos 40) random
    ∷ post_login http (ok login_request) outside
    ∷ reload os
    ∷ post_validate (λ r. ok tt) (ok validate_request) outside
    ∷ []

-- The reload comes between the two steps of the login.
abbrev schedule : List ℕ
schedule = 0 ∷ 1 ∷ 2 ∷ 1 ∷ 3 ∷ 1 ∷ []

abbrev tasks : List (Task Response)
tasks = tasks_of platform ecdsa json points handler requests

abbrev reply : Reply
reply = respond platform ecdsa json none card outside

logged_in :
    get_elem? (interleave ops schedule (tasks, handler)).0 1
    ≡ some (done (record { cookie = none; body = login_body reply }))
unfolding interleave tasks_of ensure_session origin_hostnames text_eq to_lower host_matches_any
    host_matches trim_space trim_suffix trim_prefix ends_with contains_byte valid_session_id
    default_settings get_and_remove put new_session_store new_in_memory_store session_key expired
    sub saturate ◌-ℤ◌ lookup insert delete_if validate_task checked finished decode_certificate
    decode_signature hash_for check_validity check_key_usage_for_authentication Trust.verify before
    Time.after has_ext_key_usage Verify.verify verify_with_key set_bytes check_disallowed_policies
    extract_policies any_shared subject_cn verify_signature any_origin_signs load_trusted_cas
    load_certificates_from_pem parse_blocks Trust.reload new_trust_snapshot fill_pool respond
logged_in = refl

login_among_example :
    LoggedIn platform {S = Unit {0}} ecdsa json handler requests http token outside reply
unfolding respond
login_among_example =
    login_among platform transport ecdsa json points ops os random cfg options handler requests
      schedule 1 http login_request outside (record { cookie = none; body = login_body reply })
      reply (bare (subject_from_certificate card)) started refl logged_in refl refl

validated :
    get_elem? (interleave ops schedule (tasks, handler)).0 3
    ≡ some (done (plainly (login_body reply)))
unfolding interleave tasks_of ensure_session origin_hostnames text_eq to_lower host_matches_any
    host_matches trim_space trim_suffix trim_prefix ends_with contains_byte valid_session_id
    default_settings get_and_remove put new_session_store new_in_memory_store session_key expired
    sub saturate ◌-ℤ◌ lookup insert delete_if validate_task checked finished decode_certificate
    decode_signature hash_for check_validity check_key_usage_for_authentication Trust.verify before
    Time.after has_ext_key_usage Verify.verify verify_with_key set_bytes check_disallowed_policies
    extract_policies any_shared subject_cn verify_signature any_origin_signs load_trusted_cas
    load_certificates_from_pem parse_blocks Trust.reload new_trust_snapshot fill_pool respond
validated = refl

validation_among_example :
    ◌≡◌ {A = Result (Unit {0})} (ok tt) (ok tt)
    × AnsweredFor platform {S = Unit {0}} ecdsa json handler requests token outside nonce reply
unfolding respond
validation_among_example =
    validation_among platform transport ecdsa json points ops os random cfg options handler requests
      schedule 3 (λ r. ok tt) validate_request outside (plainly (login_body reply)) reply
      (bare (subject_from_certificate card)) started refl validated refl refl

logins_le_challenges_example :
    successful_logins platform cfg (codes "s") requests (interleave ops schedule (tasks, handler)).0
    ≤ challenges platform cfg (codes "s") requests
logins_le_challenges_example =
    logins_le_challenges platform transport ecdsa json points ops os random cfg options handler
      requests schedule (codes "s") started (λ e. cc)

-- A handler with revocation checks, whose reload brings certificates of no issuer.
abbrev checking : Handler ℕ ℕ (Unit {0})
checking = record handler { validator = validator; trust = trust }

reload_meanwhile_example :
    get_elem?
      (interleave ops (0 ∷ 1 ∷ 0 ∷ []) (
        tasks_of platform ecdsa json points checking (
            post_validate
              (λ r. ok tt)
              (ok (record { auth_token = token; nonce = challenge }))
              outside
            ∷ reload os
            ∷ []),
        checking,
      )).0
      0
    ≡ some (done (plainly (login_body (failed err_certificate_not_trusted))))
unfolding load_trusted_cas load_certificates_from_pem parse_blocks new_trust_snapshot text_eq
    issuer_of first_issuer
reload_meanwhile_example =
    reload_meanwhile platform ecdsa json points ops checking (checker (1 ∷ [])) (λ r. ok tt)
      (record { auth_token = token; nonce = challenge }) outside os card card [] refl refl
      ((validate_iff platform validator token moment challenge card).1 (λ e. cc, authenticated))
      refl refl
