-- ===== src/Assertion/Jwks/Laws.antt =====
-- A key set that was published as a JWKS document is read back with the same keys.
use go_web_eid.Common.{
  ◌-◌, ◌++◌, ◌∷◌, ◌≡◌, ◌≢◌, refl, sym, ap, All, subst, ◌∙◌, Option, none, some, List, [], length,
  take, drop, arith, take-append, drop-append, if◌then◌else◌,
}
use go_web_eid.Go.Text.{Text, Bytes, codes, text_eq, text_eq_iff}
use go_web_eid.Go.Map.{Map, IsMap, Absent, lookup, lookup-insert, insert-IsMap}
use go_web_eid.Go.Base64.{Base64, IsCodec}
use go_web_eid.Exceptions.{ok, >>=-eq-ok, ◌>>=◌}
use go_web_eid.Assertion.Keys.{KeySet, new_key_set, add, get}
use go_web_eid.Assertion.Jwks.{
  Jwk, Jwks, JwksJson, Points, padded, zeros, jwk_from_public, jwks_from, jwks, marshal_jwks,
  p256_public_key, add_jwk, add_jwks, key_set_from_jwks,
}

-- Documented of crypto/ecdsa on P-256: a point is written as 4 and two coordinates of 32 bytes
-- each, and that is read back.
pub record IsPoint {Public : Type 0} (c : Points Public) (key : Public) : Type 0 where
  pub x : Bytes
  pub y : Bytes
  pub x_size : length x ≡ 32
  pub y_size : length y ≡ 32
  pub bits : c.bit_size key ≡ 256
  pub written : c.point key ≡ ok (4 ∷ (x ++ y))
  pub read : c.parse (4 ∷ (x ++ y)) ≡ ok key

-- Documented of encoding/json: what was marshalled, of valid UTF-8, is read back.
abbrev pub DocReadsBack : JwksJson → Jwks → Type 0
DocReadsBack j d = (bs : Bytes) → j.marshal d ≡ ok bs → j.unmarshal bs ≡ ok d

padded_full : (bs : Bytes) → length bs ≡ 32 → padded bs ≡ bs
padded_full bs h = ap (λ n. zeros (32 - n) ++ bs) h

-- The first of two answers.
abbrev or_else {ℓ} : {V : Type ℓ} → Option V → Option V → Option V
or_else (some v) o = some v
or_else none o = o

or_else-none {ℓ} : {V : Type ℓ} (o : Option V) → or_else o none ≡ o
or_else-none (some v) = refl
or_else-none none = refl

Absent-cons {ℓ} :
    {V : Type ℓ} (j k : Text) (v : V) (m : Map V) → Absent j ((k, v) ∷ m) → (k ≢ j) × Absent j m
unfolding lookup
Absent-cons j k v m h = ground (arith, text_eq_iff k j)

module _ {Public : Type 0} (c : Points Public) (b64 : Base64) where
  -- The key as it is published.
  abbrev pub jwk_of : Text → Bytes → Bytes → Jwk
  jwk_of kid x y = record {
    kty = codes "EC";
    crv = codes "P-256";
    x = b64.encode_raw_url x;
    y = b64.encode_raw_url y;
    kid = kid;
    use_for = codes "sig";
    alg = codes "ES256";
  }

  jwk_from_public-eq :
      (kid : Text) (key : Public) (p : IsPoint c key)
      → jwk_from_public c b64 kid key ≡ ok (jwk_of kid p.x p.y)
  unfolding jwk_from_public
  jwk_from_public-eq kid key p =
      let left : take 32 (p.x ++ p.y) ≡ p.x =
        subst (λ n. take n (p.x ++ p.y) ≡ p.x) p.x_size (take-append p.x p.y) in
      let right : drop 32 (p.x ++ p.y) ≡ p.y =
        subst (λ n. drop n (p.x ++ p.y) ≡ p.y) p.x_size (drop-append p.x p.y) in
      rw (p.written, p.bits, left, right)

  add_jwk-eq :
      (ks : KeySet Public) (kid : Text) (key : Public) (p : IsPoint c key)
      → IsCodec b64
      → add_jwk c b64 ks (jwk_of kid p.x p.y) ≡ ok (add ks kid (some key))
  unfolding p256_public_key
  add_jwk-eq ks kid key p codec =
      rw (
        codec.decode-encode_raw_url p.x,
        codec.decode-encode_raw_url p.y,
        p.x_size,
        p.y_size,
        p.read,
      )

  add-lookup :
      (ks : KeySet Public) (kid j : Text) (key : Public)
      → kid ≢ []
      → lookup j (add ks kid (some key)).keys
        ≡ (if text_eq kid j then some key else lookup j ks.keys)
  unfolding add
  add-lookup ks [] j key h = absurd (h refl)
  add-lookup ks (a ∷ kid) j key h = lookup-insert (a ∷ kid) j key ks.keys

  add_jwks_lem :
      (entries : Map Public) (ks : KeySet Public)
      → IsCodec b64
      → All (λ entry. IsPoint c entry.1) entries
      → IsMap entries
      → Absent [] entries
      → (keys : List Jwk) × (ks' : KeySet Public) × (jwks_from c b64 entries ≡ ok keys)
        × (add_jwks c b64 ks keys ≡ ok ks')
        × ((j : Text) → lookup j ks'.keys ≡ or_else (lookup j entries) (lookup j ks.keys))
  unfolding jwks_from add_jwks lookup text_eq
  add_jwks_lem [] ks codec points h named = ([], ks, refl, refl, λ j. refl)
  add_jwks_lem ((kid, key) ∷ entries) ks codec (p, points) (absent, h) named =
      let (present, tail) = Absent-cons [] kid key entries named in
      let (keys, ks', made, added, found) =
        add_jwks_lem entries (add ks kid (some key)) codec points h tail in
      (
        jwk_of kid p.x p.y ∷ keys,
        ks',
        rw (jwk_from_public-eq kid key p, made),
        rw (add_jwk-eq ks kid key p codec) added,
        λ j. ground (arith, found j, add-lookup ks kid j key present, text_eq_iff kid j),
      )

-- A key set to which keys are added one by one.
unfoldable pub add_all :
    {Public : Type 0} → KeySet Public → List (Text × Option Public) → KeySet Public
add_all ks [] = ks
add_all ks ((kid, key) ∷ rest) = add_all (add ks kid key) rest

-- Each key identifier stands once, and none is empty.
abbrev pub IsKeySet : {Public : Type 0} → KeySet Public → Type 0
IsKeySet ks = IsMap ks.keys × Absent [] ks.keys

add-IsKeySet :
    {Public : Type 0} (ks : KeySet Public) (kid : Text) (o : Option Public)
    → IsKeySet ks
    → IsKeySet (add ks kid o)
unfolding add
add-IsKeySet ks kid none h = h
add-IsKeySet ks [] (some key) h = h
add-IsKeySet ks (a ∷ kid) (some key) (h, named) = (
  insert-IsMap (a ∷ kid) key ks.keys h,
  ground (arith, lookup-insert (a ∷ kid) [] key ks.keys, text_eq_iff (a ∷ kid) []),
)

add_all-IsKeySet :
    {Public : Type 0} (ks : KeySet Public) (rest : List (Text × Option Public))
    → IsKeySet ks
    → IsKeySet (add_all ks rest)
unfolding add_all
add_all-IsKeySet ks [] h = h
add_all-IsKeySet ks ((kid, key) ∷ rest) h =
    add_all-IsKeySet (add ks kid key) rest (add-IsKeySet ks kid key h)

new_key_set-IsKeySet : {Public : Type 0} → IsKeySet (new_key_set {Public = Public})
unfolding new_key_set lookup
new_key_set-IsKeySet = (tt, refl)

-- A key set that keys were added to, published as a JWKS document in any order of its entries, is
-- read back as a key set with the same key under every identifier; the keys are points on P-256,
-- and their encoding, base64, and JSON at this document behave as documented.
pub key_set_from-marshal_jwks :
    {Public : Type 0} (c : Points Public) (b64 : Base64) (json : JwksJson)
    (added : List (Text × Option Public)) (entries : Map Public) (bs : Bytes)
    → IsCodec b64
    → All (λ entry. IsPoint c entry.1) entries
    → ((d : Jwks) → jwks c b64 entries ≡ ok d → DocReadsBack json d)
    → IsMap entries
    → ((kid : Text) → lookup kid entries ≡ get (add_all new_key_set added) kid)
    → marshal_jwks c b64 json entries ≡ ok bs
    → (ks : KeySet Public) × (key_set_from_jwks c b64 json bs ≡ ok ks)
      × ((kid : Text) → get ks kid ≡ get (add_all new_key_set added) kid)
unfolding marshal_jwks jwks key_set_from_jwks get new_key_set lookup
key_set_from-marshal_jwks c b64 json added entries bs codec points back once same h =
    let (d, made, sealed) = >>=-eq-ok (jwks c b64 entries) json.marshal h in
    let named : Absent [] entries =
      same [] ∙ (add_all-IsKeySet new_key_set added new_key_set-IsKeySet).1 in
    let (keys, ks, published, read, found) =
      add_jwks_lem c b64 entries new_key_set codec points once named in
    let document : ok (record { keys = keys }) ≡ ok d =
      sym (ap (λ r. r >>= (λ k. ok (record { keys = k }))) published) ∙ made in
    let opened : json.unmarshal bs ≡ ok (record { keys = keys }) =
      back d made bs sealed ∙ sym document in
    (ks, rw (opened) read, λ kid. found kid ∙ or_else-none (lookup kid entries) ∙ same kid)
