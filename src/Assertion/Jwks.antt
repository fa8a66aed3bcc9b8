-- ===== src/Assertion/Jwks.antt =====
-- assertion/assertion.go: key sets as JWKS documents. Points on P-256 and encoding/json are
-- interfaces. Go leaves open in which order it ranges over a map: the order is an argument.
pub mod Laws
use go_web_eid.Common.{
  ℕ, zero, suc, ◌+◌, ◌*◌, ◌-◌, Bool, ◌||◌, ◌&&◌, not, Option, none, some, List, [], ◌∷◌, ◌++◌, ltb,
  length, take, drop, if◌then◌else◌,
}
use go_web_eid.Go.Text.{Text, Bytes, codes, text_eq}
use go_web_eid.Go.Map.{Map}
use go_web_eid.Go.Base64.{Base64}
use go_web_eid.Exceptions.{Result, ok, err, ◌>>=◌}
use go_web_eid.Signature.Verify.{coordinate_size}
use go_web_eid.Assertion.Keys.{Ecdsa, KeySet, new_key_set, add}
use go_web_eid.Assertion.Issuer.{p256_byte_len, Issuer, key_set}
use go_web_eid.Assertion.Verifier.{err_invalid_token, or_invalid_token}

-- JWK
pub record Jwk : Type 0 where
  pub kty : Text
  pub crv : Text
  pub x : Text
  pub y : Text
  pub kid : Text
  pub use_for : Text
  pub alg : Text

-- JWKS
pub record Jwks : Type 0 where
  pub keys : List Jwk

-- json.Marshal and json.Unmarshal
pub record JwksJson : Type 0 where
  pub marshal : Jwks → Result Bytes
  pub unmarshal : Bytes → Result Jwks

-- PublicKey.Bytes, the curve's BitSize, and ParseUncompressedPublicKey on P-256
pub record Points (Public : Type 0) : Type 0 where
  pub point : Public → Result Bytes
  pub bit_size : Public → ℕ
  pub parse : Bytes → Result Public

abbrev pub zeros : ℕ → Bytes
zeros zero = []
zeros (suc n) = 0 ∷ zeros n

-- A coordinate at the right of its slot, behind zeros.
abbrev pub padded : Bytes → Bytes
padded bs = zeros (p256_byte_len - length bs) ++ bs

module _ {Public : Type 0} (c : Points Public) (b64 : Base64) where
  -- jwkFromPublic
  unfoldable pub jwk_from_public : Text → Public → Result Jwk
  jwk_from_public kid pub_key = do
    raw ← c.point pub_key
    let byte_len = coordinate_size (c.bit_size pub_key)
    ok (record {
      kty = codes "EC";
      crv = codes "P-256";
      x = b64.encode_raw_url (take byte_len (drop 1 raw));
      y = b64.encode_raw_url (drop (1 + byte_len) raw);
      kid = kid;
      use_for = codes "sig";
      alg = codes "ES256";
    })

  -- The loop of JWKS over the entries of the map.
  unfoldable pub jwks_from : Map Public → Result (List Jwk)
  jwks_from [] = ok []
  jwks_from ((kid, pub_key) ∷ entries) =
      let rest = jwks_from entries in
      do jwk ← jwk_from_public kid pub_key; jwks ← rest; ok (jwk ∷ jwks)

  -- JWKS
  unfoldable pub jwks : Map Public → Result Jwks
  jwks entries = do keys ← jwks_from entries; ok (record { keys = keys })

  -- MarshalJWKS
  unfoldable pub marshal_jwks : JwksJson → Map Public → Result Bytes
  unfolding jwks
  marshal_jwks json entries = do doc ← jwks entries; json.marshal doc

  -- Issuer.JWKS
  unfoldable pub issuer_jwks :
      {Private : Type 0} → Ecdsa Private Public → JwksJson → Issuer Private → Result Bytes
  issuer_jwks e json i = marshal_jwks json (key_set e i).keys

  -- p256PublicKey
  unfoldable pub p256_public_key : Bytes → Bytes → Result Public
  p256_public_key xb yb =
      if ltb p256_byte_len (length xb) || ltb p256_byte_len (length yb)
      then err err_invalid_token
      else c.parse (4 ∷ (padded xb ++ padded yb))

  abbrev add_jwk : KeySet Public → Jwk → Result (KeySet Public)
  add_jwk ks k = do
    xb ← or_invalid_token (b64.decode_raw_url k.x)
    yb ← or_invalid_token (b64.decode_raw_url k.y)
    pub_key ← or_invalid_token (p256_public_key xb yb)
    ok (add ks k.kid (some pub_key))

  -- Is it a key of the kind that is kept?
  abbrev pub is_p256 : Jwk → Bool
  is_p256 k = text_eq k.kty (codes "EC") && text_eq k.crv (codes "P-256")

  -- The loop of KeySetFromJWKS; other keys are skipped.
  unfoldable pub add_jwks : KeySet Public → List Jwk → Result (KeySet Public)
  unfolding p256_public_key
  add_jwks ks [] = ok ks
  add_jwks ks (k ∷ keys) =
      let added = (do ks' ← add_jwk ks k; add_jwks ks' keys) in
      if not (is_p256 k) then add_jwks ks keys else added

  -- KeySetFromJWKS
  unfoldable pub key_set_from_jwks : JwksJson → Bytes → Result (KeySet Public)
  unfolding add_jwks
  key_set_from_jwks json content = do doc ← json.unmarshal content; add_jwks new_key_set doc.keys
