-- ===== src/Exceptions.antt =====
-- exceptions/errors.go: typed errors with an HTTP status and a message that is safe for clients,
-- and the result type of every fallible function.
use go_web_eid.Common.{ℕ, String, Option, none, some, Bool, true, false, ◌≡◌, refl, ◌⊎◌, inl, inr}

-- Error.Code: one constructor for each of the package's identifiers, in lower case.
pub data Code : Type 0 where
  token_parse token_unsupported_format token_signature_invalid challenge_nonce_expired : Code
  challenge_nonce_not_found certificate_expired certificate_not_yet_valid : Code
  certificate_not_trusted certificate_revoked certificate_disallowed_policy : Code
  user_certificate_wrong_purpose signing_certificate_invalid ocsp_request_failed : Code
  no_supported_hash_function signature_value_invalid identity_binding_mismatch : Code

-- A Go error: nil, an error with a text of its own, one that has a status and a message for clients
-- besides, or an `exceptions.Error` with its cause.
pub data GoError : Type 0 where
  no_error : GoError
  plain : (text : String) → GoError
  safe : (text message : String) (status : ℕ) → GoError
  web_eid : (code : Code) (message : String) (status : ℕ) → (cause : GoError) → GoError

-- newError
abbrev pub new_error : Code → String → ℕ → GoError
new_error code message status = web_eid code message status no_error

-- withCause
abbrev pub with_cause : GoError → GoError → GoError
with_cause (web_eid code message status _) cause = web_eid code message status cause
with_cause e cause = e

-- Wrap: a nil base stays nil.
abbrev pub wrap : GoError → GoError → GoError
wrap base cause = with_cause base cause

-- What a function returns beside a Go error.
pub data Result {ℓ} (A : Type ℓ) : Type ℓ where
  ok : A → Result A
  err : GoError → Result A

-- Chains of calls: the first error ends one.
infixl 5 ◌>>=◌ ◌>>◌
abbrev pub ◌>>=◌ {ℓ κ} : {S : Type ℓ} {T : Type κ} → Result S → (S → Result T) → Result T
err e >>= next = err e
ok s >>= next = next s

abbrev pub ◌>>◌ {ℓ} : {T : Type ℓ} → Result (Unit {0}) → Result T → Result T
checked >> next = checked >>= λ _. next

abbrev pub err_token_parse : GoError
err_token_parse = new_error token_parse "authentication token is malformed" 400

abbrev pub err_token_unsupported_format : GoError
err_token_unsupported_format =
    new_error token_unsupported_format "authentication token format is not supported" 400

abbrev pub err_token_signature_invalid : GoError
err_token_signature_invalid =
    new_error token_signature_invalid "authentication token signature is invalid" 401

abbrev pub err_challenge_nonce_expired : GoError
err_challenge_nonce_expired = new_error challenge_nonce_expired "challenge nonce has expired" 401

abbrev pub err_challenge_nonce_not_found : GoError
err_challenge_nonce_not_found =
    new_error challenge_nonce_not_found "challenge nonce was not found" 401

abbrev pub err_certificate_expired : GoError
err_certificate_expired = new_error certificate_expired "user certificate has expired" 401

abbrev pub err_certificate_not_yet_valid : GoError
err_certificate_not_yet_valid =
    new_error certificate_not_yet_valid "user certificate is not yet valid" 401

abbrev pub err_certificate_not_trusted : GoError
err_certificate_not_trusted =
    new_error certificate_not_trusted "user certificate is not trusted" 401

abbrev pub err_certificate_revoked : GoError
err_certificate_revoked = new_error certificate_revoked "user certificate has been revoked" 401

abbrev pub err_certificate_disallowed_policy : GoError
err_certificate_disallowed_policy =
    new_error certificate_disallowed_policy "user certificate policy is not allowed" 401

abbrev pub err_user_certificate_wrong_purpose : GoError
err_user_certificate_wrong_purpose =
    new_error user_certificate_wrong_purpose "user certificate has wrong key usage" 401

abbrev pub err_signing_certificate_invalid : GoError
err_signing_certificate_invalid =
    new_error signing_certificate_invalid "signing certificate is invalid" 422

abbrev pub err_ocsp_request_failed : GoError
err_ocsp_request_failed = new_error ocsp_request_failed "certificate revocation check failed" 502

abbrev pub err_no_supported_hash_function : GoError
err_no_supported_hash_function =
    new_error no_supported_hash_function "no supported hash function available" 422

abbrev pub err_signature_value_invalid : GoError
err_signature_value_invalid =
    new_error signature_value_invalid "signature value does not verify against the digest" 422

abbrev pub err_identity_binding_mismatch : GoError
err_identity_binding_mismatch =
    new_error identity_binding_mismatch
      "authentication and signing certificates belong to different persons" 422

-- StatusCode and SafeError, of the errors that have them.
abbrev pub status_code : GoError → ℕ
status_code (web_eid code message status cause) = status
status_code (safe text message status) = status
status_code _ = 0

abbrev pub safe_error : GoError → String
safe_error (web_eid code message status cause) = message
safe_error (safe text message status) = message
safe_error _ = ""

-- The identifier of a typed error.
abbrev pub error_code : GoError → Option Code
error_code (web_eid code message status cause) = some code
error_code _ = none

-- Success, as a test.
abbrev pub is_ok {ℓ} : {A : Type ℓ} → Result A → Bool
is_ok (ok a) = true
is_ok (err e) = false

pub Result-cases {ℓ} :
    {A : Type ℓ} (r : Result A) → ((a : A) × (r ≡ ok a)) ⊎ ((e : GoError) × (r ≡ err e))
Result-cases (ok a) = inl (a, refl)
Result-cases (err e) = inr (e, refl)

-- A chain succeeds only if its first call does, and then the rest of it.
pub >>=-eq-ok {ℓ κ} :
    {S : Type ℓ} {T : Type κ} (call : Result S) (next : S → Result T) {t : T}
    (done : (call >>= next) ≡ ok t)
    → (s : S) × (call ≡ ok s) × (next s ≡ ok t)
>>=-eq-ok (err e) next done = cc
>>=-eq-ok (ok s) next done = (s, refl, done)
