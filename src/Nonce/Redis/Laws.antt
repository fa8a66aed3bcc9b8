-- ===== src/Nonce/Redis/Laws.antt =====
-- The Redis store keeps the contract of ChallengeNonceStore, over any client that does what Redis
-- documents of SET with an expiry and of GETDEL.
use go_web_eid.Common.{◌≡◌, ◌++◌, Option, none, some, arith, ◌<ℤ◌, inl, inr}
use go_web_eid.Go.Text.{Text, Bytes}
use go_web_eid.Go.Time.{Time, Duration, add}
use go_web_eid.Exceptions.{
  GoError, Result-cases, ok, err, error_code, challenge_nonce_not_found,
  err_challenge_nonce_not_found,
}
use go_web_eid.Nonce.Challenge.{ChallengeNonce}
use go_web_eid.Nonce.Redis.{Client, StoredNonce, NonceJson, Store, put, get_and_remove}

-- Documented of Redis: GETDEL answers what SET stored until the expiry, and leaves nothing.
pub record IsRedis {R : Type 0} (c : Client R) : Type 0 where
  pub get_del-set :
      (r : R) (k : Text) (v : Bytes) (ttl : Duration) (t u : Time)
      → (c.set r k v ttl t).0 ≡ ok tt
      → u <ℤ add t ttl
      → (c.get_del (c.set r k v ttl t).1 k u).0 ≡ ok (some v)
  pub get_del_twice :
      (r : R) (k : Text) (o : Option Bytes) (t u : Time)
      → (c.get_del r k t).0 ≡ ok o
      → (c.get_del (c.get_del r k t).1 k u).0 ≡ ok none

-- Documented of encoding/json: a nonce that was marshalled, of valid UTF-8, is read back.
abbrev pub ReadsBack : NonceJson → StoredNonce → Type 0
ReadsBack j n = (bs : Bytes) → j.marshal n ≡ ok bs → j.unmarshal bs ≡ ok n

-- What Put stores of a nonce.
abbrev pub stored_nonce : ChallengeNonce → StoredNonce
stored_nonce n = record { nonce = n.base64_encoded_nonce; issued_at = n.issued_at }

module _ {C R : Type 0} (json : NonceJson) (s : Store C R) where
  -- The nonce that a session put is the one that it gets, before the expiry of its key; a second
  -- call then fails with "not found", at any time.
  pub get-put :
      (r : R) (ctx : C) (k : Text) (t u v : Time) (n : ChallengeNonce)
      → IsRedis s.client
      → ReadsBack json (stored_nonce n)
      → s.session_key ctx ≡ ok k
      → (put json s r ctx t n).0 ≡ ok tt
      → u <ℤ add t s.ttl
      → ((get_and_remove json s (put json s r ctx t n).1 ctx u).0 ≡ ok n)
        × ((get_and_remove json s (get_and_remove json s (put json s r ctx t n).1 ctx u).1 ctx v).0
            ≡ err err_challenge_nonce_not_found)
  unfolding put get_and_remove
  get-put r ctx k t u v n redis reads key stored early = elim (Result-cases (json.marshal sent)) [
    | inr (e, failed) ↦ absurd (ground arith)
    | inl (bs, sealed) ↦ (
      ground (arith, redis.get_del-set r place bs s.ttl t u, reads bs),
      ground (
        arith,
        redis.get_del-set r place bs s.ttl t u,
        redis.get_del_twice (s.client.set r place bs s.ttl t).1 place (some bs) u v,
      ),
    )
  ]
    where
      place : Text
      place = s.prefix ++ k

      sent : StoredNonce
      sent = record { nonce = n.base64_encoded_nonce; issued_at = n.issued_at }

  -- Whatever fails behind a session, in the client or in decoding, is answered as "not found".
  get_and_remove-error :
      (r : R) (ctx : C) (k : Text) (t : Time) (e : GoError)
      → s.session_key ctx ≡ ok k
      → (get_and_remove json s r ctx t).0 ≡ err e
      → error_code e ≡ some challenge_nonce_not_found
  unfolding get_and_remove
  get_and_remove-error r ctx k t e key h = ground arith
