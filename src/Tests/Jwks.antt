-- ===== src/Tests/Jwks.antt =====
-- A key set that is published and read back.
use go_web_eid.Common.{
  ◌++◌, ◌∷◌, [], ◌≡◌, refl, true, some, arith, Bool, false, none, Option, List, list_eq, take,
}
use go_web_eid.Go.Text.{Text, Bytes, codes, text_eq, text_eq_iff}
use go_web_eid.Go.Map.{lookup, insert}
use go_web_eid.Assertion.Keys.{KeySet, new_key_set, add, get}
use go_web_eid.Assertion.Jwks.{
  Points, Jwks, JwksJson, zeros, jwks, jwks_from, jwk_from_public, marshal_jwks, key_set_from_jwks,
}
use go_web_eid.Assertion.Jwks.Laws.{IsPoint, jwk_of, add_all, key_set_from-marshal_jwks}
use go_web_eid.Exceptions.{ok}
use go_web_eid.Tests.World.{base64, base64-IsCodec}

-- Two keys: the first byte of their point tells them apart.
abbrev first_coordinate : Bool → Bytes
first_coordinate true = zeros 32
first_coordinate false = 1 ∷ zeros 31

abbrev points : Points Bool
points = record {
  point = λ k. ok (4 ∷ (first_coordinate k ++ zeros 32));
  bit_size = λ k. 256;
  parse = λ bs. ok (list_eq (take 2 bs) (4 ∷ 0 ∷ []));
}

points-IsPoint : (k : Bool) → IsPoint points k
points-IsPoint true = record {
  x = zeros 32;
  y = zeros 32;
  x_size = refl;
  y_size = refl;
  bits = refl;
  written = refl;
  read = refl;
}
points-IsPoint false = record {
  x = 1 ∷ zeros 31;
  y = zeros 32;
  x_size = refl;
  y_size = refl;
  bits = refl;
  written = refl;
  read = refl;
}

abbrev entries : List (Text × Bool)
entries = (codes "j", true) ∷ (codes "k", false) ∷ []

abbrev added : List (Text × Option Bool)
added = (codes "k", some false) ∷ (codes "x", none) ∷ (codes "j", some true) ∷ []

abbrev document : Jwks
document = record {
  keys =
      jwk_of points base64 (codes "j") (zeros 32) (zeros 32)
      ∷ jwk_of points base64 (codes "k") (1 ∷ zeros 31) (zeros 32)
      ∷ [];
}

-- Exactly this document has a text.
abbrev jwks_json : JwksJson
jwks_json = record { marshal = λ d. ok (1 ∷ []); unmarshal = λ bs. ok document }

same_keys : (kid : Text) → lookup kid entries ≡ get (add_all new_key_set added) kid
unfolding lookup get add_all add insert text_eq new_key_set
same_keys kid = ground (arith, text_eq_iff (codes "j") kid, text_eq_iff (codes "k") kid)

key_set_from-marshal_jwks_example :
    (ks : KeySet Bool) × (key_set_from_jwks points base64 jwks_json (1 ∷ []) ≡ ok ks)
    × ((kid : Text) → get ks kid ≡ get (add_all new_key_set added) kid)
unfolding jwks jwks_from jwk_from_public marshal_jwks lookup text_eq
key_set_from-marshal_jwks_example =
    key_set_from-marshal_jwks points base64 jwks_json added entries (1 ∷ []) base64-IsCodec
      (points-IsPoint true, (points-IsPoint false, tt)) (λ d made bs sealed. made)
      (refl, (refl, tt)) same_keys refl
