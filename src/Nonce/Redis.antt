-- ===== src/Nonce/Redis.antt =====
-- redisstore/store.go: the store over a Redis client, which is an interface: its state `R` is the
-- server's, and every command has the time at which it runs.
pub mod Laws
pub mod Adapter
pub mod Agreement
use go_web_eid.Common.{◌++◌, Option, none, some, List, [], ◌∷◌, is_empty, if◌then◌else◌}
use go_web_eid.Go.Text.{Text, Bytes, codes}
use go_web_eid.Go.Time.{Time, Duration}
use go_web_eid.Exceptions.{plain, Result, ok, err, wrap, err_challenge_nonce_not_found}
use go_web_eid.Nonce.Challenge.{ChallengeNonce}
use go_web_eid.Nonce.Memory.{SessionKeyFunc, default_nonce_ttl, is_unset}
use go_web_eid.Nonce.Store.{ChallengeNonceStore}

abbrev pub default_key_prefix : Text
default_key_prefix = codes "webeid:nonce:"

-- Client: GetDel answers nothing for an absent key.
pub record Client (R : Type 0) : Type 0 where
  pub set : R → Text → Bytes → Duration → Time → Result (Unit {0}) × R
  pub get_del : R → Text → Time → Result (Option Bytes) × R

-- storedNonce
pub record StoredNonce : Type 0 where
  pub nonce : Text
  pub issued_at : Time

-- encoding/json at storedNonce
pub record NonceJson : Type 0 where
  pub marshal : StoredNonce → Result Bytes
  pub unmarshal : Bytes → Result StoredNonce

-- Store
pub record Store (C R : Type 0) : Type 0 where
  pub client : Client R
  pub session_key : SessionKeyFunc C
  pub ttl : Duration
  pub prefix : Text

module _ {C R : Type 0} where
  -- WithKeyPrefix
  unfoldable pub with_key_prefix : Text → Store C R → Store C R
  with_key_prefix prefix s = if is_empty prefix then s else record s { prefix = prefix }

  -- The loop over the options of New.
  pub apply_options : List (Store C R → Store C R) → Store C R → Store C R
  apply_options [] s = s
  apply_options (o ∷ more) s = apply_options more (o s)

  -- New; no client and no function is nil.
  unfoldable pub new :
      Option (Client R)
      → Option (SessionKeyFunc C)
      → Duration
      → List (Store C R → Store C R)
      → Result (Store C R)
  unfolding apply_options
  new none key ttl opts = err (plain "redisstore: a Redis client is required")
  new (some client) none ttl opts = err (plain "redisstore: a session key function is required")
  new (some client) (some key) ttl opts = ok (
      apply_options opts (record {
        client = client;
        session_key = key;
        ttl = if is_unset ttl then default_nonce_ttl else ttl;
        prefix = default_key_prefix;
      }))

  module _ (json : NonceJson) (s : Store C R) where
    abbrev send : R → Text → Time → Result Bytes → Result (Unit {0}) × R
    send r key now (err e) = (err e, r)
    send r key now (ok payload) = s.client.set r (s.prefix ++ key) payload s.ttl now

    abbrev put_at : R → Time → ChallengeNonce → Result Text → Result (Unit {0}) × R
    put_at r now n (err e) = (err e, r)
    put_at r now n (ok key) =
        send r key now
          (json.marshal (record { nonce = n.base64_encoded_nonce; issued_at = n.issued_at }))

    -- Put
    unfoldable pub put : R → C → Time → ChallengeNonce → Result (Unit {0}) × R
    put r ctx now n = put_at r now n (s.session_key ctx)

    abbrev pub decoded : Result StoredNonce → Result ChallengeNonce
    decoded (err e) = err (wrap err_challenge_nonce_not_found e)
    decoded (ok sn) = ok (record { base64_encoded_nonce = sn.nonce; issued_at = sn.issued_at })

    abbrev pub received : Result (Option Bytes) → Result ChallengeNonce
    received (err e) = err (wrap err_challenge_nonce_not_found e)
    received (ok none) = err err_challenge_nonce_not_found
    received (ok (some raw)) = decoded (json.unmarshal raw)

    abbrev get_at : R → Time → Result Text → Result ChallengeNonce × R
    get_at r now (err e) = (err e, r)
    get_at r now (ok key) =
        let (raw, r') = s.client.get_del r (s.prefix ++ key) now in (received raw, r')

    -- GetAndRemove
    unfoldable pub get_and_remove : R → C → Time → Result ChallengeNonce × R
    get_and_remove r ctx now = get_at r now (s.session_key ctx)
