-- ===== src/Assertion/Verifier/Laws.antt =====
-- What a verified assertion establishes, and that an issued one is verified.
use go_web_eid.Common.{
  ◌++◌, ◌∷◌, ◌≡◌, sym, ap, subst, ◌∙◌, ◌⊎◌, pos, true, Option, some, List, [], length, take, drop,
  arith, ◌≤ℤ◌, ◌↔◌,
}
use go_web_eid.Go.Text.{Text, Bytes, codes, text_eq_iff, split}
use go_web_eid.Go.Text.Laws.{join, join-split}
use go_web_eid.Go.Time.{Time, before, after, add, of_unix}
use go_web_eid.Go.BigInt.{set_bytes}
use go_web_eid.Go.Base64.{Base64}
use go_web_eid.Exceptions.{Result, ok, >>=-eq-ok}
use go_web_eid.Assertion.Claims.{Claims, JwsHeader, ClaimsJson}
use go_web_eid.Assertion.Keys.{Ecdsa, get}
use go_web_eid.Assertion.Verifier.{
  Verifier, check_claims, check_signature, verify_parts, on_parts, verify, require_es256,
  or_invalid_token, or_unknown,
}

-- The claims name the verifier's issuer and audience, and the time is, up to the leeway, not past
-- the expiry and not before the issue, as far as the claims have those; time.Unix reads them.
abbrev pub IsCurrent : {Public : Type 0} → Verifier Public → Claims → Time → Type 0
IsCurrent v c now =
    (c.issuer ≡ v.iss)
    × (c.audience ≡ v.aud)
    × ((c.expiry ≡ pos 0) ⊎ (now ≤ℤ add (of_unix c.expiry) v.leeway))
    × ((c.issued_at ≡ pos 0) ⊎ (of_unix c.issued_at ≤ℤ add now v.leeway))

pub check_claims_iff :
    {Public : Type 0} (v : Verifier Public) (c : Claims) (now : Time)
    → (check_claims v c now ≡ ok tt) ↔ IsCurrent v c now
unfolding check_claims before after
check_claims_iff v c now = ground (arith, text_eq_iff c.issuer v.iss, text_eq_iff c.audience v.aud)

module _ {Private Public : Type 0} (e : Ecdsa Private Public) (json : ClaimsJson)
    (b64 : Base64) where
  -- The signature has two halves of 32 bytes, r and s, and is one of the key over the digest.
  abbrev pub Signs : Public → Text → Bytes → Type 0
  Signs key input sig =
      (length sig ≡ 64)
      × (e.verify key (e.sum256 input) (set_bytes (take 32 sig)) (set_bytes (drop 32 sig)) ≡ true)

  pub check_signature_iff :
      (key : Public) (input : Text) (sig : Bytes)
      → (check_signature e json b64 key input sig ≡ ok tt) ↔ Signs key input sig
  unfolding check_signature
  check_signature_iff key input sig = ground arith

  -- What Verify has established of a token whose claims it answers.
  pub record IsVerified (v : Verifier Public) (token : Text) (now : Time) (claims : Claims)
      : Type 0 where
    pub header : Text
    pub body : Text
    pub signature : Text
    pub parts : token ≡ join b'.' (header ∷ body ∷ signature ∷ [])
    pub header_bytes : Bytes
    pub header_decoded : b64.decode_raw_url header ≡ ok header_bytes
    pub jws_header : JwsHeader
    pub header_read : json.unmarshal_header header_bytes ≡ ok jws_header
    pub algorithm : jws_header.alg ≡ codes "ES256"
    pub key : Public
    pub known : get v.keys jws_header.kid ≡ some key
    pub signature_bytes : Bytes
    pub signature_decoded : b64.decode_raw_url signature ≡ ok signature_bytes
    pub signed : Signs key (header ++ b'.' ∷ body) signature_bytes
    pub payload : Bytes
    pub payload_decoded : b64.decode_raw_url body ≡ ok payload
    pub payload_read : json.unmarshal_claims payload ≡ ok claims
    pub current : IsCurrent v claims now

  or_invalid_token-eq-ok {ℓ} :
      {A : Type ℓ} (r : Result A) (a : A) → or_invalid_token r ≡ ok a → r ≡ ok a
  or_invalid_token-eq-ok r a h = ground arith

  or_unknown-eq-ok {ℓ} : {A : Type ℓ} (o : Option A) (a : A) → or_unknown o ≡ ok a → o ≡ some a
  or_unknown-eq-ok o a h = ground arith

  require_es256-ok : (alg : Text) → require_es256 e json b64 alg ≡ ok tt → alg ≡ codes "ES256"
  require_es256-ok alg h = ground (arith, text_eq_iff alg (codes "ES256"))

  verify_parts_sound :
      (v : Verifier Public) (token : Text) (now : Time) (header body signature : Text)
      (claims : Claims)
      → token ≡ join b'.' (header ∷ body ∷ signature ∷ [])
      → verify_parts e json b64 v now header body signature ≡ ok claims
      → IsVerified v token now claims
  unfolding verify_parts
  verify_parts_sound v token now header body signature claims parts h =
      let (hb, header_decoded, h1) = >>=-eq-ok _ _ h in
      let (hdr, header_read, h2) = >>=-eq-ok _ _ h1 in
      let (_, es256, h3) = >>=-eq-ok (require_es256 e json b64 hdr.alg) _ h2 in
      let (key, known, h4) = >>=-eq-ok _ _ h3 in
      let (sig, signature_decoded, h5) = >>=-eq-ok _ _ h4 in
      let (_, signed, h6) = >>=-eq-ok _ _ h5 in
      let (payload, payload_decoded, h7) = >>=-eq-ok _ _ h6 in
      let (c, payload_read, h8) = >>=-eq-ok _ _ h7 in
      let (_, current, h9) = >>=-eq-ok _ _ h8 in
      let same : c ≡ claims = ground arith in
      record {
        header = header;
        body = body;
        signature = signature;
        parts = parts;
        header_bytes = hb;
        header_decoded = or_invalid_token-eq-ok _ hb header_decoded;
        jws_header = hdr;
        header_read = or_invalid_token-eq-ok _ hdr header_read;
        algorithm = require_es256-ok hdr.alg es256;
        key = key;
        known = or_unknown-eq-ok _ key known;
        signature_bytes = sig;
        signature_decoded = or_invalid_token-eq-ok _ sig signature_decoded;
        signed = (check_signature_iff key (header ++ b'.' ∷ body) sig).0 signed;
        payload = payload;
        payload_decoded = or_invalid_token-eq-ok _ payload payload_decoded;
        payload_read = or_invalid_token-eq-ok _ c payload_read ∙ ap ok same;
        current = subst (λ d. IsCurrent v d now) same ((check_claims_iff v c now).0 current);
      }

  on_parts_sound :
      (v : Verifier Public) (token : Text) (now : Time) (ps : List Text) (claims : Claims)
      → join b'.' ps ≡ token
      → on_parts e json b64 v now ps ≡ ok claims
      → IsVerified v token now claims
  on_parts_sound v token now [] claims same h = cc
  on_parts_sound v token now (a ∷ []) claims same h = cc
  on_parts_sound v token now (a ∷ b ∷ []) claims same h = cc
  on_parts_sound v token now (a ∷ b ∷ c ∷ []) claims same h =
      verify_parts_sound v token now a b c claims (sym same) h
  on_parts_sound v token now (a ∷ b ∷ c ∷ d ∷ ps) claims same h = cc

  -- Verify answers claims only of a token of three parts whose header says ES256 and names a known
  -- key, whose signature is one of that key over the first two parts as they stand, and whose
  -- second part carries those claims, which name the verifier's issuer and audience and are
  -- current at the time, up to the leeway, as far as they have an expiry and an issue time, by the
  -- times that time.Unix makes of these seconds, which wrap near the greatest int64.
  pub verify_sound :
      (v : Verifier Public) (token : Text) (now : Time) (claims : Claims)
      → verify e json b64 v token now ≡ ok claims
      → IsVerified v token now claims
  unfolding verify
  verify_sound v token now claims h =
      on_parts_sound v token now (split b'.' token) claims (join-split b'.' token) h
