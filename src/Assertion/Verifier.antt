-- ===== src/Assertion/Verifier.antt =====
-- assertion/assertion.go: verifying an assertion. The clock is an argument of a call.
pub mod Laws
use go_web_eid.Common.{
  ℕ, ◌*◌, ◌++◌, ◌∷◌, ℤ, pos, Bool, true, false, not, ◌||◌, ◌&&◌, Option, none, some, List, [], ◌==◌,
  ltb_ℤ, is_empty, length, take, drop, if◌then◌else◌,
}
use go_web_eid.Go.Text.{Text, Bytes, codes, text_eq, split}
use go_web_eid.Go.Time.{Time, Duration, seconds, before, after, add, of_unix}
use go_web_eid.Go.BigInt.{set_bytes}
use go_web_eid.Go.Base64.{Base64}
use go_web_eid.Exceptions.{GoError, plain, Result, ok, err, ◌>>=◌, ◌>>◌}
use go_web_eid.Assertion.Claims.{Claims, JwsHeader, ClaimsJson}
use go_web_eid.Assertion.Keys.{Ecdsa, KeySet, get}
use go_web_eid.Assertion.Issuer.{p256_byte_len}

abbrev pub err_invalid_token : GoError
err_invalid_token = plain "assertion: malformed token"

abbrev pub err_algorithm : GoError
err_algorithm = plain "assertion: unexpected algorithm"

abbrev pub err_unknown_key : GoError
err_unknown_key = plain "assertion: unknown signing key id"

abbrev pub err_signature : GoError
err_signature = plain "assertion: signature verification failed"

abbrev pub err_issuer : GoError
err_issuer = plain "assertion: unexpected issuer"

abbrev pub err_audience : GoError
err_audience = plain "assertion: unexpected audience"

abbrev pub err_expired : GoError
err_expired = plain "assertion: assertion has expired"

abbrev pub err_not_yet_valid : GoError
err_not_yet_valid = plain "assertion: assertion is not yet valid"

-- Verifier
pub record Verifier (Public : Type 0) : Type 0 where
  pub keys : KeySet Public
  pub iss : Text
  pub aud : Text
  pub leeway : Duration

-- NewVerifier with WithLeeway, if it is given; no key set is nil.
abbrev pub leeway_of : Option Duration → Duration
leeway_of none = seconds 30
leeway_of (some d) = if ltb_ℤ d (pos 0) then seconds 30 else d

unfoldable pub new_verifier :
    {Public : Type 0}
    → Option (KeySet Public)
    → Text
    → Text
    → Option Duration
    → Result (Verifier Public)
new_verifier none issuer_url audience leeway = err (plain "assertion: a key set is required")
new_verifier (some keys) issuer_url audience leeway =
    if is_empty issuer_url || is_empty audience
    then err (plain "assertion: issuer and audience are required")
    else ok (record { keys = keys; iss = issuer_url; aud = audience; leeway = leeway_of leeway })

-- Every failure of a decoder is a malformed token.
abbrev pub or_invalid_token {ℓ} : {A : Type ℓ} → Result A → Result A
or_invalid_token (ok a) = ok a
or_invalid_token (err e) = err err_invalid_token

abbrev pub or_unknown {ℓ} : {A : Type ℓ} → Option A → Result A
or_unknown none = err err_unknown_key
or_unknown (some a) = ok a

abbrev pub is_zero_int : ℤ → Bool
is_zero_int n = if ltb_ℤ n (pos 0) then false else if ltb_ℤ (pos 0) n then false else true

module _ {Public : Type 0} where
  -- The checks of the claims.
  pub check_claims : Verifier Public → Claims → Time → Result (Unit {0})
  check_claims v claims now =
      if not (text_eq claims.issuer v.iss)
      then err err_issuer
      else if not (text_eq claims.audience v.aud)
      then err err_audience
      else if not (is_zero_int claims.expiry) && after now (add (of_unix claims.expiry) v.leeway)
      then err err_expired
      else if not (is_zero_int claims.issued_at)
          && before (add now v.leeway) (of_unix claims.issued_at)
      then err err_not_yet_valid
      else ok tt

module _ {Private Public : Type 0} (e : Ecdsa Private Public) (json : ClaimsJson)
    (b64 : Base64) where
  -- The signature over the signing input.
  pub check_signature : Public → Text → Bytes → Result (Unit {0})
  check_signature key input sig =
      if not (length sig == 2 * p256_byte_len)
      then err err_invalid_token
      else if not (
          e.verify key (e.sum256 input) (set_bytes (take p256_byte_len sig))
            (set_bytes (drop p256_byte_len sig)))
      then err err_signature
      else ok tt

  abbrev pub require_es256 : Text → Result (Unit {0})
  require_es256 alg = if not (text_eq alg (codes "ES256")) then err err_algorithm else ok tt

  -- Verify of the three parts of a token.
  unfoldable pub verify_parts : Verifier Public → Time → Text → Text → Text → Result Claims
  verify_parts v now header body signature = do
    hdr_bytes ← or_invalid_token (b64.decode_raw_url header)
    hdr ← or_invalid_token (json.unmarshal_header hdr_bytes)
    require_es256 hdr.alg
    key ← or_unknown (get v.keys hdr.kid)
    sig ← or_invalid_token (b64.decode_raw_url signature)
    check_signature key (header ++ b'.' ∷ body) sig
    payload ← or_invalid_token (b64.decode_raw_url body)
    claims ← or_invalid_token (json.unmarshal_claims payload)
    check_claims v claims now
    ok claims

  abbrev pub on_parts : Verifier Public → Time → List Text → Result Claims
  on_parts v now (header ∷ body ∷ signature ∷ []) = verify_parts v now header body signature
  on_parts v now _ = err err_invalid_token

  -- Verify
  unfoldable pub verify : Verifier Public → Text → Time → Result Claims
  verify v token now = on_parts v now (split b'.' token)
