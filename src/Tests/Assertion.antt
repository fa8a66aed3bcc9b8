-- ===== src/Tests/Assertion.antt =====
-- An assertion that is issued and verified.
use go_web_eid.Common.{
  ℕ, ◌%◌, ◌==◌, ◌&&◌, ◌≡◌, refl, true, some, [], ◌∷◌, ◌++◌, pos, arith, length, ◌+ℤ◌, ◌-ℤ◌, ◌*ℤ◌,
}
use go_web_eid.Go.Text.{Text, codes, text_eq}
use go_web_eid.Go.Time.{seconds, minutes, add, of_unix, unix_seconds}
use go_web_eid.Go.Map.{lookup}
use go_web_eid.Go.BigInt.{fill_bytes}
use go_web_eid.Exceptions.{ok}
use go_web_eid.Assertion.Claims.{Subject, Claims, ClaimsJson}
use go_web_eid.Assertion.Keys.{Ecdsa, get}
use go_web_eid.Assertion.Issuer.{Issuer, signing_input, sign, claims_of, issue}
use go_web_eid.Assertion.Verifier.{Verifier, verify}
use go_web_eid.Assertion.Verifier.Laws.{IsVerified, verify_sound}
use go_web_eid.Assertion.RoundTrip.{IsEcdsa, header_of, verify-issue}
use go_web_eid.Tests.World.{base64, base64-IsCodec}

-- A key is a number, its own public key; a signature is the length of the digest and the key.
abbrev pub ecdsa : Ecdsa ℕ ℕ
ecdsa = record {
  public_key = λ k. k;
  is_p256 = λ k. true;
  sum256 = λ bs. bs;
  sign = λ k entropy digest. ok (length digest % 256, k % 256);
  verify = λ k digest r s. r == length digest % 256 && s == k % 256;
}

ecdsa-IsEcdsa : IsEcdsa ecdsa
ecdsa-IsEcdsa = record {
  fits = λ k entropy digest r s h. ground arith;
  verify-sign = λ k entropy digest r s h. ground arith;
}

abbrev subject : Subject
subject = record {
  national_id = codes "PNOLV-1";
  country = codes "LV";
  given_name = [];
  family_name = [];
  loa = codes "high";
}

abbrev issuer : Issuer ℕ
issuer = record {
  kid = codes "k";
  key = 17;
  iss = codes "eid";
  aud = codes "auth";
  ttl = minutes 2;
}

abbrev claims : Claims
claims = record {
  issuer = codes "eid";
  audience = codes "auth";
  subject = codes "PNOLV-1";
  issued_at = pos 5;
  expiry = pos 125;
  jwt_id = codes "id";
  national_id = codes "PNOLV-1";
  country = codes "LV";
  given_name = [];
  family_name = [];
  loa = codes "high";
  login_method = codes "webEid";
}

-- A header is its key id, and claims are their token identifier.
abbrev pub json : ClaimsJson
json = record {
  marshal_header = λ h. ok h.kid;
  unmarshal_header = λ bs. ok (header_of bs);
  marshal_claims = λ c. ok c.jwt_id;
  unmarshal_claims = λ bs. ok (record claims { jwt_id = bs });
}

abbrev verifier : Verifier ℕ
verifier = record {
  keys = record { keys = (codes "j", 3) ∷ (codes "k", 17) ∷ [] };
  iss = codes "eid";
  aud = codes "auth";
  leeway = seconds 30;
}

abbrev token : Text
token =
    signing_input ecdsa json base64 (codes "k") (codes "id")
    ++ b'.' ∷ base64.encode_raw_url (fill_bytes 32 4 ++ fill_bytes 32 17)

issued : issue ecdsa json base64 issuer subject (ok (codes "id")) (seconds 5) [] ≡ ok token
unfolding issue sign claims_of
issued = refl

known : get verifier.keys (codes "k") ≡ some 17
unfolding get lookup text_eq
known = refl

verify-issue_example :
    verify ecdsa json base64 verifier token (seconds 100)
    ≡ ok (claims_of ecdsa json base64 issuer subject (codes "id") (seconds 5))
unfolding add ◌+ℤ◌ ◌-ℤ◌ of_unix ◌*ℤ◌ unix_seconds claims_of
verify-issue_example =
    verify-issue ecdsa json base64 issuer verifier subject (codes "id") (seconds 5) (seconds 100) []
      token base64-IsCodec (λ bs h. ground arith) (λ bs h. ground arith) ecdsa-IsEcdsa known refl
      refl (omega arith) (omega arith) issued

verified : verify ecdsa json base64 verifier token (seconds 100) ≡ ok claims
unfolding add ◌+ℤ◌ ◌-ℤ◌ of_unix ◌*ℤ◌ unix_seconds claims_of
verified =
    verify-issue ecdsa json base64 issuer verifier subject (codes "id") (seconds 5) (seconds 100) []
      token base64-IsCodec (λ bs h. ground arith) (λ bs h. ground arith) ecdsa-IsEcdsa known refl
      refl (omega arith) (omega arith) issued

verify_sound_example : IsVerified ecdsa json base64 verifier token (seconds 100) claims
verify_sound_example = verify_sound ecdsa json base64 verifier token (seconds 100) claims verified
