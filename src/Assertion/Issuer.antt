-- ===== src/Assertion/Issuer.antt =====
-- assertion/assertion.go: minting an assertion. The clock, the token identifier and the entropy of
-- the signature are arguments of a call.
use go_web_eid.Common.{ℕ, ◌++◌, ◌∷◌, not, ◌||◌, Option, none, some, is_empty, if◌then◌else◌}
use go_web_eid.Go.Text.{Text, Bytes, codes}
use go_web_eid.Go.Time.{Time, Duration, minutes, add, unix_seconds}
use go_web_eid.Go.BigInt.{fill_bytes}
use go_web_eid.Go.Base64.{Base64}
use go_web_eid.Exceptions.{plain, Result, ok, err, ◌>>=◌}
use go_web_eid.Nonce.Memory.{is_unset}
use go_web_eid.Nonce.Generator.{Random}
use go_web_eid.Assertion.Claims.{Subject, Claims, ClaimsJson}
use go_web_eid.Assertion.Keys.{Ecdsa, SigningKey, KeySet, new_key_set}
use go_web_eid.Assertion.Keys

abbrev pub default_issuer_ttl : Duration
default_issuer_ttl = minutes 2

abbrev pub p256_byte_len : ℕ
p256_byte_len = 32

-- randomJTI
unfoldable pub random_jti : Base64 → Random → Result Text
random_jti b64 random = do buf ← random 16; ok (b64.encode_raw_url buf)

-- Issuer, whose key has a private key.
pub record Issuer (Private : Type 0) : Type 0 where
  pub kid : Text
  pub key : Private
  pub iss : Text
  pub aud : Text
  pub ttl : Duration

module _ {Private Public : Type 0} (e : Ecdsa Private Public) where
  abbrev issuer_of_key : Text → Text → Text → Duration → Option Private → Result (Issuer Private)
  issuer_of_key kid issuer_url audience ttl none =
      err (plain "assertion: a signing key is required")
  issuer_of_key kid issuer_url audience ttl (some k) =
      if not (e.is_p256 k)
      then err (plain "assertion: ES256 requires a P-256 key")
      else if is_empty kid
      then err (plain "assertion: a key id is required")
      else if is_empty issuer_url || is_empty audience
      then err (plain "assertion: issuer and audience are required")
      else ok (record {
        kid = kid;
        key = k;
        iss = issuer_url;
        aud = audience;
        ttl = if is_unset ttl then default_issuer_ttl else ttl;
      })

  -- NewIssuer
  unfoldable pub new_issuer : SigningKey Private → Text → Text → Duration → Result (Issuer Private)
  new_issuer key issuer_url audience ttl = issuer_of_key key.kid issuer_url audience ttl key.key

  -- KeySet
  unfoldable pub key_set : Issuer Private → KeySet Public
  key_set i = Keys.add new_key_set i.kid (some (e.public_key i.key))

  module _ (json : ClaimsJson) (b64 : Base64) where
    -- The signing input of a header and a payload.
    abbrev pub signing_input : Bytes → Bytes → Text
    signing_input hdr payload = b64.encode_raw_url hdr ++ b'.' ∷ b64.encode_raw_url payload

    -- sign
    unfoldable pub sign : Text → Private → Claims → Bytes → Result Text
    sign kid key claims entropy = do
      hdr ← json.marshal_header (record { alg = codes "ES256"; typ = codes "JWT"; kid = kid })
      payload ← json.marshal_claims claims
      (r, s) ← e.sign key entropy (e.sum256 (signing_input hdr payload))
      ok (
          signing_input hdr payload
          ++ b'.' ∷ b64.encode_raw_url (fill_bytes p256_byte_len r ++ fill_bytes p256_byte_len s))

    -- The claims that Issue signs.
    unfoldable pub claims_of : Issuer Private → Subject → Text → Time → Claims
    claims_of i s jti now = record {
      issuer = i.iss;
      audience = i.aud;
      subject = s.national_id;
      issued_at = unix_seconds now;
      expiry = unix_seconds (add now i.ttl);
      jwt_id = jti;
      national_id = s.national_id;
      country = s.country;
      given_name = s.given_name;
      family_name = s.family_name;
      loa = s.loa;
      login_method = codes "webEid";
    }

    -- Issue
    unfoldable pub issue : Issuer Private → Subject → Result Text → Time → Bytes → Result Text
    issue i s jti now entropy =
        if is_empty s.national_id
        then err (plain "assertion: subject national id is required")
        else do id ← jti; sign i.kid i.key (claims_of i s id now) entropy
