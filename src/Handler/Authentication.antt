-- ===== src/Handler/Authentication.antt =====
-- azugo/routes.go, with the requests and responses of azugo/dto.go: challenge, login and the
-- stateless validation. What reading a body answers is an argument.
use go_web_eid.Common.{Option, none, some, ◌∷◌, ◌++◌, if◌then◌else◌}
use go_web_eid.Go.Text.{Text, Bytes, codes}
use go_web_eid.Go.Time.{Time}
use go_web_eid.Exceptions.{GoError, Result, ok, err, ◌>>◌, err_challenge_nonce_expired}
use go_web_eid.Certificate.X509.{Certificate}
use go_web_eid.Certificate.Subject.{title_case_text}
use go_web_eid.Platform.{Platform}
use go_web_eid.Token.{AuthToken}
use go_web_eid.Nonce.Challenge.{ChallengeNonce, expired}
use go_web_eid.Nonce.Store.{ChallengeNonceStore}
use go_web_eid.Nonce.Generator.{Random, generate_and_store_nonce}
use go_web_eid.Validator.Validate.{Moment}
use go_web_eid.Validator.Validate
use go_web_eid.Assertion.Claims.{Subject, ClaimsJson}
use go_web_eid.Assertion.Keys.{Ecdsa}
use go_web_eid.Assertion.Issuer.{Issuer, issue}
use go_web_eid.Handler.Subject.{SubjectResponse, subject_from_certificate}
use go_web_eid.Handler.Session.{Context}
use go_web_eid.Handler.Settings.{Nonces, take_nonce}
use go_web_eid.Handler.Build.{Handler, validator_of}

-- ChallengeResponse
pub record ChallengeResponse : Type 0 where
  pub nonce : Text

-- LoginRequest
pub record LoginRequest : Type 0 where
  pub auth_token : AuthToken

-- ValidateRequest
pub record ValidateRequest : Type 0 where
  pub auth_token : AuthToken
  pub nonce : Text

-- AssertionResponse
pub record AssertionResponse : Type 0 where
  pub assertion : Text
  pub subject : SubjectResponse

-- The two forms of a successful answer.
pub data Authenticated : Type 0 where
  bare : SubjectResponse → Authenticated
  asserted : AssertionResponse → Authenticated

-- The claims of the user that a handler sets on the request.
pub record User : Type 0 where
  pub sub : Text
  pub given_name : Text
  pub family_name : Text
  pub name : Text

-- The user that is set, if any, and the answer.
pub record Reply : Type 0 where
  pub user : Option User
  pub answer : Result Authenticated

-- What a call reads from outside: the times of the store, of the expiry check and of the issuer,
-- what the validator reads, and the token identifier and the entropy of an assertion.
pub record Outside : Type 0 where
  pub store_now : Time
  pub now : Time
  pub moment : Moment
  pub jti : Result Text
  pub issue_now : Time
  pub entropy : Bytes

abbrev pub failed : GoError → Reply
failed e = record { user = none; answer = err e }

-- The subject of an assertion.
abbrev pub assertion_subject : SubjectResponse → Subject
assertion_subject s = record {
  national_id = s.id_code;
  country = s.country_code;
  given_name = s.given_name;
  family_name = s.surname;
  loa = codes "high";
}

abbrev pub answer_with : SubjectResponse → Result Text → Result Authenticated
answer_with s (err e) = err e
answer_with s (ok tok) = ok (asserted (record { assertion = tok; subject = s }))

module _ {Private Public S : Type 0} where
  -- The handler with the nonces that a call of the store left.
  abbrev pub with_nonces : Handler Private Public S → Nonces S → Handler Private Public S
  with_nonces h nonces = record h { settings = record h.settings { nonces = nonces } }

  abbrev challenged :
      Handler Private Public S
      → Result ChallengeNonce × Nonces S
      → Result ChallengeResponse × Handler Private Public S
  challenged h (err f, nonces) = (err f, with_nonces h nonces)
  challenged h (ok n, nonces) =
      (ok (record { nonce = n.base64_encoded_nonce }), with_nonces h nonces)

  module _ (p : Platform) (ops : ChallengeNonceStore Context S) where
    -- challenge, with what the entropy source answers to this call
    unfoldable pub challenge :
        Handler Private Public S
        → Context
        → Time
        → Random
        → Result ChallengeResponse × Handler Private Public S
    challenge h ctx now drawn = challenged h (
        generate_and_store_nonce p.base64 (record h.generator { random = drawn }) h.settings.nonces
          ctx now)

module _ (p : Platform) where
  -- The user of a subject.
  abbrev pub user_of : SubjectResponse → User
  user_of s = record {
    sub = s.id_code;
    given_name = s.given_name;
    family_name = s.surname;
    name = title_case_text p.runes (s.given_name ++ b' ' ∷ s.surname);
  }

  module _ {Private Public : Type 0} (e : Ecdsa Private Public) (json : ClaimsJson) where
    abbrev pub answer_for :
        Option (Issuer Private) → SubjectResponse → Outside → Result Authenticated
    answer_for none s o = ok (bare s)
    answer_for (some iss) s o =
        answer_with s (issue e json p.base64 iss (assertion_subject s) o.jti o.issue_now o.entropy)

    -- The end of login and of validate.
    unfoldable pub respond : Option (Issuer Private) → Certificate → Outside → Reply
    respond issuer cert o =
        let subject = subject_from_certificate cert in
        record { user = some (user_of subject); answer = answer_for issuer subject o }

    abbrev pub when_valid : Option (Issuer Private) → Result Certificate → Outside → Reply
    when_valid issuer (err f) o = failed f
    when_valid issuer (ok cert) o = respond issuer cert o

    module _ {S : Type 0} where
      -- login, after the nonce was taken out of the store.
      abbrev pub log_in :
          Handler Private Public S → AuthToken → Result ChallengeNonce → Outside → Reply
      log_in h token (err f) o = failed f
      log_in h token (ok stored) o =
          if expired stored o.now h.config.nonce_ttl
          then failed err_challenge_nonce_expired
          else when_valid h.settings.assertion_issuer
              (Validate.validate p (validator_of h) (some token) o.moment
                stored.base64_encoded_nonce)
              o

      -- validate, with what ValidateRequest.Validate answers
      unfoldable pub validate :
          Handler Private Public S
          → (required : ValidateRequest → Result (Unit {0})) → Result ValidateRequest
          → Outside
          → Reply
      validate h required (err f) o = failed f
      validate h required (ok req) o =
          when_valid h.settings.assertion_issuer
            (required req
              >> Validate.validate p (validator_of h) (some req.auth_token) o.moment req.nonce)
            o

      abbrev log_in_after :
          Handler Private Public S
          → AuthToken
          → Outside
          → Result ChallengeNonce × Nonces S
          → Reply × Handler Private Public S
      log_in_after h token o (stored, nonces) = (log_in h token stored o, with_nonces h nonces)

      module _ (ops : ChallengeNonceStore Context S) where
        -- login
        unfoldable pub login :
            Handler Private Public S
            → Context
            → Result LoginRequest
            → Outside
            → Reply × Handler Private Public S
        login h ctx (err f) o = (failed f, h)
        login h ctx (ok req) o =
            log_in_after h req.auth_token o (take_nonce ops h.settings.nonces ctx o.store_now)
