-- ===== src/Assertion/RoundTrip.antt =====
-- An assertion that was issued is verified, with its own claims.
use go_web_eid.Common.{
  ℕ, ◌^◌, ◌<◌, ◌++◌, ◌∷◌, ◌≡◌, ap, sym, subst, ◌∙◌, true, false, some, [], take, drop, arith, ◌≤ℤ◌,
  inr, append_assoc, length-append, take-append, drop-append,
}
use go_web_eid.Go.Text.{Text, Bytes, codes, split, contains_byte, text_eq}
use go_web_eid.Go.Text.Laws.{split-append, split-eq-one}
use go_web_eid.Go.Time.{Time, add, of_unix, unix_seconds}
use go_web_eid.Go.BigInt.{fill_bytes}
use go_web_eid.Go.BigInt.Laws.{length-fill_bytes, set_bytes-fill_bytes}
use go_web_eid.Go.Base64.{Base64, IsCodec}
use go_web_eid.Exceptions.{ok, >>=-eq-ok}
use go_web_eid.Assertion.Claims.{Subject, Claims, JwsHeader, ClaimsJson}
use go_web_eid.Assertion.Keys.{Ecdsa, get}
use go_web_eid.Assertion.Issuer.{Issuer, signing_input, sign, claims_of, issue}
use go_web_eid.Assertion.Verifier.{Verifier, verify_parts, on_parts, verify}
use go_web_eid.Assertion.Verifier.Laws.{IsCurrent, check_claims_iff, Signs, check_signature_iff}

-- Documented of crypto/ecdsa on P-256: both numbers of a signature are below the order of the group,
-- and the signature verifies with the public key.
pub record IsEcdsa {Private Public : Type 0} (e : Ecdsa Private Public) : Type 0 where
  pub fits :
      (k : Private) (entropy digest : Bytes) (r s : ℕ)
      → e.sign k entropy digest ≡ ok (r, s)
      → (r < 256 ^ 32) × (s < 256 ^ 32)
  pub verify-sign :
      (k : Private) (entropy digest : Bytes) (r s : ℕ)
      → e.sign k entropy digest ≡ ok (r, s)
      → e.verify (e.public_key k) digest r s ≡ true

-- Documented of encoding/json: what was marshalled, of valid UTF-8, is read back.
abbrev pub HeaderReadsBack : ClaimsJson → JwsHeader → Type 0
HeaderReadsBack j h = (bs : Bytes) → j.marshal_header h ≡ ok bs → j.unmarshal_header bs ≡ ok h

abbrev pub ClaimsReadBack : ClaimsJson → Claims → Type 0
ClaimsReadBack j c = (bs : Bytes) → j.marshal_claims c ≡ ok bs → j.unmarshal_claims bs ≡ ok c

split-token :
    (x y z : Text)
    → contains_byte b'.' x ≡ false
    → contains_byte b'.' y ≡ false
    → contains_byte b'.' z ≡ false
    → split b'.' ((x ++ b'.' ∷ y) ++ b'.' ∷ z) ≡ x ∷ y ∷ z ∷ []
split-token x y z hx hy hz =
    ap (split b'.') (append_assoc x (b'.' ∷ y) (b'.' ∷ z))
    ∙ split-append b'.' x (y ++ b'.' ∷ z) hx
    ∙ ap (λ ps. x ∷ ps) (split-append b'.' y z hy ∙ ap (λ ps. y ∷ ps) (split-eq-one b'.' z hz))

abbrev pub header_of : Text → JwsHeader
header_of kid = record { alg = codes "ES256"; typ = codes "JWT"; kid = kid }

module _ {Private Public : Type 0} (e : Ecdsa Private Public) (json : ClaimsJson)
    (b64 : Base64) where
  Signs-halves :
      (k : Private) (entropy : Bytes) (input : Text) (r s : ℕ)
      → IsEcdsa e
      → e.sign k entropy (e.sum256 input) ≡ ok (r, s)
      → Signs e json b64 (e.public_key k) input (fill_bytes 32 r ++ fill_bytes 32 s)
  Signs-halves k entropy input r s ecdsa h =
      let (r_fits, s_fits) = ecdsa.fits k entropy (e.sum256 input) r s h in
      let left : take 32 (fill_bytes 32 r ++ fill_bytes 32 s) ≡ fill_bytes 32 r =
        subst (λ n. take n (fill_bytes 32 r ++ fill_bytes 32 s) ≡ fill_bytes 32 r)
          (length-fill_bytes 32 r) (take-append (fill_bytes 32 r) (fill_bytes 32 s)) in
      let right : drop 32 (fill_bytes 32 r ++ fill_bytes 32 s) ≡ fill_bytes 32 s =
        subst (λ n. drop n (fill_bytes 32 r ++ fill_bytes 32 s) ≡ fill_bytes 32 s)
          (length-fill_bytes 32 r) (drop-append (fill_bytes 32 r) (fill_bytes 32 s)) in
      (
        omega (
          arith,
          length-append (fill_bytes 32 r) (fill_bytes 32 s),
          length-fill_bytes 32 r,
          length-fill_bytes 32 s,
        ),
        rw (left, right, set_bytes-fill_bytes 32 r r_fits, set_bytes-fill_bytes 32 s s_fits)
            (ecdsa.verify-sign k entropy (e.sum256 input) r s h),
      )

  verify_parts_complete :
      (v : Verifier Public) (now : Time) (kid : Text) (key : Public) (claims : Claims)
      (hdr payload sig : Bytes)
      → IsCodec b64
      → json.unmarshal_header hdr ≡ ok (header_of kid)
      → json.unmarshal_claims payload ≡ ok claims
      → get v.keys kid ≡ some key
      → Signs e json b64 key (signing_input e json b64 hdr payload) sig
      → IsCurrent v claims now
      → verify_parts e json b64 v now
          (b64.encode_raw_url hdr)
          (b64.encode_raw_url payload)
          (b64.encode_raw_url sig)
        ≡ ok claims
  unfolding verify_parts text_eq
  verify_parts_complete v now kid key claims hdr payload sig codec header_read payload_read known
        signed current =
      rw (
        codec.decode-encode_raw_url hdr,
        header_read,
        known,
        codec.decode-encode_raw_url sig,
        (check_signature_iff e json b64 key (signing_input e json b64 hdr payload) sig).1 signed,
        codec.decode-encode_raw_url payload,
        payload_read,
        (check_claims_iff v claims now).1 current,
      )

  claims_of-IsCurrent :
      (i : Issuer Private) (v : Verifier Public) (s : Subject) (jti : Text) (now later : Time)
      → v.iss ≡ i.iss
      → v.aud ≡ i.aud
      → later ≤ℤ add (of_unix (unix_seconds (add now i.ttl))) v.leeway
      → of_unix (unix_seconds now) ≤ℤ add later v.leeway
      → IsCurrent v (claims_of e json b64 i s jti now) later
  unfolding claims_of
  claims_of-IsCurrent i v s jti now later iss aud early late =
      (sym iss, sym aud, inr early, inr late)

  -- An assertion that was issued is verified, and Verify answers the claims that were issued, if
  -- the verifier knows the issuer's public key under its key id and expects its issuer and
  -- audience, and the time is, up to the leeway, not past the expiry and not before the issue, both
  -- in whole seconds; base64, JSON at this header and these claims, and ECDSA behave as documented.
  pub verify-issue :
      (i : Issuer Private) (v : Verifier Public) (s : Subject) (jti : Text) (now later : Time)
      (entropy : Bytes) (token : Text)
      → IsCodec b64
      → HeaderReadsBack json (header_of i.kid)
      → ClaimsReadBack json (claims_of e json b64 i s jti now)
      → IsEcdsa e
      → get v.keys i.kid ≡ some (e.public_key i.key)
      → v.iss ≡ i.iss
      → v.aud ≡ i.aud
      → later ≤ℤ add (of_unix (unix_seconds (add now i.ttl))) v.leeway
      → of_unix (unix_seconds now) ≤ℤ add later v.leeway
      → issue e json b64 i s (ok jti) now entropy ≡ ok token
      → verify e json b64 v token later ≡ ok (claims_of e json b64 i s jti now)
  unfolding issue sign verify
  verify-issue i v s jti now later entropy token codec header_back claims_back ecdsa known iss aud
        early late h =
      let (hdr, sealed_header, h1) =
        >>=-eq-ok (json.marshal_header (header_of i.kid)) _ (issued h) in
      let (payload, sealed_claims, h2) = >>=-eq-ok (json.marshal_claims claims) _ h1 in
      let (halves, signed, h3) =
        >>=-eq-ok (e.sign i.key entropy (e.sum256 (signing_input e json b64 hdr payload))) _ h2 in
      let sig : Bytes = fill_bytes 32 halves.0 ++ fill_bytes 32 halves.1 in
      let made : signing_input e json b64 hdr payload ++ b'.' ∷ b64.encode_raw_url sig ≡ token =
        ground arith in
      subst (λ t. verify e json b64 v t later ≡ ok claims) made
        (ap (on_parts e json b64 v later) (
            split-token (b64.encode_raw_url hdr) (b64.encode_raw_url payload)
              (b64.encode_raw_url sig) (codec.no_dot hdr) (codec.no_dot payload) (codec.no_dot sig))
          ∙ verify_parts_complete v later i.kid (e.public_key i.key) claims hdr payload sig codec
              (header_back hdr sealed_header) (claims_back payload sealed_claims) known
              (Signs-halves i.key entropy (signing_input e json b64 hdr payload) halves.0 halves.1
                ecdsa signed)
              (claims_of-IsCurrent i v s jti now later iss aud early late))
    where
      claims : Claims
      claims = claims_of e json b64 i s jti now

      issued :
          issue e json b64 i s (ok jti) now entropy ≡ ok token
          → sign e json b64 i.kid i.key claims entropy ≡ ok token
      issued g = ground arith
