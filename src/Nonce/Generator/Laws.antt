-- ===== src/Nonce/Generator/Laws.antt =====
-- A generated nonce has at least 256 bits from the entropy source, and is in the store.
use go_web_eid.Common.{ℕ, ◌≤◌, ℤ, ◌≡◌, inl, inr, Option, none, some, List, [], ◌∷◌, arith, length}
use go_web_eid.Go.Text.{Bytes}
use go_web_eid.Go.Time.{Time, Duration}
use go_web_eid.Go.Base64.{Base64, IsCodec}
use go_web_eid.Exceptions.{ok, Result-cases}
use go_web_eid.Nonce.Challenge.{ChallengeNonce}
use go_web_eid.Nonce.Store.{ChallengeNonceStore}
use go_web_eid.Nonce.Generator.{
  Random, Generator, Builder, new_builder, with_challenge_nonce_store, with_nonce_ttl,
  with_nonce_size, with_secure_random, build, generate_and_store_nonce,
}

-- One call on the builder.
pub data Setting (C S : Type 0) : Type 0 where
  store_is : Option (ChallengeNonceStore C S) → Setting C S
  ttl_is : Duration → Setting C S
  size_is : ℤ → Setting C S
  random_is : Option Random → Setting C S

module _ {C S : Type 0} where
  unfoldable pub apply : Builder C S → List (Setting C S) → Builder C S
  unfolding with_challenge_nonce_store with_nonce_ttl with_nonce_size with_secure_random
  apply b [] = b
  apply b (store_is store ∷ cs) = apply (with_challenge_nonce_store store b) cs
  apply b (ttl_is ttl ∷ cs) = apply (with_nonce_ttl ttl b) cs
  apply b (size_is bytes ∷ cs) = apply (with_nonce_size bytes b) cs
  apply b (random_is r ∷ cs) = apply (with_secure_random r b) cs

  apply-size :
      (b : Builder C S) (cs : List (Setting C S)) → 32 ≤ b.nonce_size → 32 ≤ (apply b cs).nonce_size
  unfolding apply
  apply-size b [] h = h
  apply-size b (store_is store ∷ cs) h = apply-size (with_challenge_nonce_store store b) cs h
  apply-size b (ttl_is ttl ∷ cs) h = apply-size (with_nonce_ttl ttl b) cs (ground arith)
  apply-size b (size_is bytes ∷ cs) h = apply-size (with_nonce_size bytes b) cs (ground arith)
  apply-size b (random_is none ∷ cs) h = apply-size b cs h
  apply-size b (random_is (some r) ∷ cs) h = apply-size (with_secure_random (some r) b) cs h

  -- Whatever is set on the builder, a generator that it builds asks for at least 32 bytes.
  pub build-size :
      (reader : Random) (cs : List (Setting C S)) (g : Generator C S)
      → build (apply (new_builder reader) cs) ≡ ok g
      → 32 ≤ g.nonce_size
  unfolding build new_builder
  build-size reader cs g h = ground (arith, apply-size (new_builder reader) cs (omega arith))

  -- A generator whose entropy source answers as many bytes as asked answers a nonce that decodes to
  -- at least 32 such bytes, was issued at the time of the call, and is the one that the store took.
  pub generate_and_store_nonce_lem :
      (b64 : Base64) (reader : Random) (cs : List (Setting C S)) (g : Generator C S) (s s' : S)
      (ctx : C) (now : Time) (n : ChallengeNonce)
      → IsCodec b64
      → build (apply (new_builder reader) cs) ≡ ok g
      → ((size : ℕ) (bs : Bytes) → g.random size ≡ ok bs → length bs ≡ size)
      → generate_and_store_nonce b64 g s ctx now ≡ (ok n, s')
      → (bs : Bytes) × (b64.decode_std n.base64_encoded_nonce ≡ ok bs)
        × (32 ≤ length bs)
        × (g.random g.nonce_size ≡ ok bs)
        × (n.issued_at ≡ now)
        × (g.store.put s ctx now n ≡ (ok tt, s'))
  unfolding generate_and_store_nonce
  generate_and_store_nonce_lem b64 reader cs g s s' ctx now n codec built full h =
      elim (Result-cases (g.random g.nonce_size)) [
        | inr (e, failed) ↦ absurd (ground arith)
        | inl (bs, drawn) ↦ (
          bs,
          ground (arith, codec.decode-encode_std bs),
          ground (arith, full g.nonce_size bs, build-size reader cs g),
          drawn,
          ground arith,
          ground arith,
        )
      ]
