-- ===== src/Nonce/Generator.antt =====
-- nonce.go: the generator of challenge nonces and its builder. What io.ReadFull reads from the
-- entropy source is an argument, by the number of bytes asked for.
pub mod Laws
use go_web_eid.Common.{ℕ, ℤ, pos, pos_part, Bool, ltb_ℤ, Option, none, some, if◌then◌else◌}
use go_web_eid.Go.Text.{Text, Bytes}
use go_web_eid.Go.Time.{Time, Duration}
use go_web_eid.Go.Base64.{Base64}
use go_web_eid.Exceptions.{GoError, plain, Result, ok, err}
use go_web_eid.Nonce.Challenge.{ChallengeNonce}
use go_web_eid.Nonce.Memory.{default_nonce_ttl, is_unset}
use go_web_eid.Nonce.Store.{ChallengeNonceStore}

abbrev pub min_nonce_bytes : ℕ
min_nonce_bytes = 32

abbrev pub err_store_nil : GoError
err_store_nil = plain "a ChallengeNonceStore is required"

-- An io.Reader under io.ReadFull: that many bytes, or an error.
abbrev pub Random : Type 0
Random = ℕ → Result Bytes

module _ (C S : Type 0) where
  -- challengeNonceGenerator
  pub record Generator : Type 0 where
    pub store : ChallengeNonceStore C S
    pub nonce_size : ℕ
    pub random : Random

  -- ChallengeNonceGeneratorBuilder; no store is nil.
  pub record Builder : Type 0 where
    pub store : Option (ChallengeNonceStore C S)
    pub ttl : Duration
    pub nonce_size : ℕ
    pub random : Random

-- The nonce, unless the store failed.
abbrev pub stored {ℓ} :
    {S : Type ℓ} → ChallengeNonce → Result (Unit {0}) × S → Result ChallengeNonce × S
stored nonce (ok _, s) = (ok nonce, s)
stored nonce (err e, s) = (err e, s)

module _ {C S : Type 0} where
  -- NewChallengeNonceGeneratorBuilder, over the system's entropy source
  unfoldable pub new_builder : Random → Builder C S
  new_builder reader = record {
    store = none;
    ttl = default_nonce_ttl;
    nonce_size = min_nonce_bytes;
    random = reader;
  }

  -- WithChallengeNonceStore
  unfoldable pub with_challenge_nonce_store :
      Option (ChallengeNonceStore C S) → Builder C S → Builder C S
  with_challenge_nonce_store store b = record b { store = store }

  -- WithNonceTTL
  unfoldable pub with_nonce_ttl : Duration → Builder C S → Builder C S
  with_nonce_ttl ttl b = if is_unset ttl then b else record b { ttl = ttl }

  -- WithNonceSize
  pub with_nonce_size : ℤ → Builder C S → Builder C S
  with_nonce_size bytes b =
      if ltb_ℤ bytes (pos min_nonce_bytes) then b else record b { nonce_size = pos_part bytes }

  -- WithSecureRandom
  pub with_secure_random : Option Random → Builder C S → Builder C S
  with_secure_random none b = b
  with_secure_random (some r) b = record b { random = r }

  abbrev generator_over : Builder C S → Option (ChallengeNonceStore C S) → Result (Generator C S)
  generator_over b none = err err_store_nil
  generator_over b (some store) =
      ok (record { store = store; nonce_size = b.nonce_size; random = b.random })

  -- Build: the default lifetime that it writes into the builder reaches no generator.
  unfoldable pub build : Builder C S → Result (Generator C S)
  build b = generator_over b b.store

  module _ (b64 : Base64) where
    abbrev generate : Generator C S → S → C → Time → Result Bytes → Result ChallengeNonce × S
    generate g s ctx now (err e) = (err e, s)
    generate g s ctx now (ok buf) =
        let nonce : ChallengeNonce = record {
          base64_encoded_nonce = b64.encode_std buf;
          issued_at = now;
        } in
        stored nonce (g.store.put s ctx now nonce)

    -- GenerateAndStoreNonce
    unfoldable pub generate_and_store_nonce :
        Generator C S → S → C → Time → Result ChallengeNonce × S
    generate_and_store_nonce g s ctx now = generate g s ctx now (g.random g.nonce_size)
