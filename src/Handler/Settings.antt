-- ===== src/Handler/Settings.antt =====
-- azugo/handler.go: what the options of New set, and the nonce store of a handler, which is either
-- the in-process one or one that was supplied. No issuer, key set or transport is nil.
use go_web_eid.Common.{Bool, true, false, Option, none, some, List, [], ◌∷◌}
use go_web_eid.Go.Time.{Time}
use go_web_eid.Exceptions.{Result}
use go_web_eid.Nonce.Challenge.{ChallengeNonce}
use go_web_eid.Nonce.Memory.{InMemoryStore, new_in_memory_store}
use go_web_eid.Nonce.Memory
use go_web_eid.Nonce.Store.{ChallengeNonceStore}
use go_web_eid.Ocsp.Options.{Transport}
use go_web_eid.Assertion.Keys.{Ecdsa, KeySet}
use go_web_eid.Assertion.Issuer.{Issuer, key_set}
use go_web_eid.Handler.Configuration.{Configuration}
use go_web_eid.Handler.Session.{Context, session_key}

-- The value of a handler's store, over the states `S` of a supplied one.
pub data Nonces (S : Type 0) : Type 0 where
  in_process : InMemoryStore Context → Nonces S
  supplied : S → Nonces S

-- NewSessionStore
unfoldable pub new_session_store : Configuration → InMemoryStore Context
new_session_store cfg = new_in_memory_store session_key cfg.nonce_ttl

module _ {S : Type 0} where
  -- What a method of the store answers, with the store as a value of the interface.
  abbrev keep_in_process {ℓ} : {A : Type ℓ} → A × InMemoryStore Context → A × Nonces S
  keep_in_process (a, s) = (a, in_process s)

  abbrev keep_supplied {ℓ} : {A : Type ℓ} → A × S → A × Nonces S
  keep_supplied (a, s) = (a, supplied s)

  module _ (ops : ChallengeNonceStore Context S) where
    -- The methods of the interface, by the store that stands behind it.
    abbrev pub put_nonce : Nonces S → Context → Time → ChallengeNonce → Result (Unit {0}) × Nonces S
    put_nonce (in_process s) ctx now n = keep_in_process (Memory.put s ctx now n)
    put_nonce (supplied s) ctx now n = keep_supplied (ops.put s ctx now n)

    abbrev pub take_nonce : Nonces S → Context → Time → Result ChallengeNonce × Nonces S
    take_nonce (in_process s) ctx now = keep_in_process (Memory.get_and_remove s ctx)
    take_nonce (supplied s) ctx now = keep_supplied (ops.get_and_remove s ctx now)

    abbrev pub nonce_store : ChallengeNonceStore Context (Nonces S)
    nonce_store = record { put = put_nonce; get_and_remove = take_nonce }

-- The fields of Handler that the options change.
pub record Settings (Private Public S : Type 0) : Type 0 where
  pub nonces : Nonces S
  pub runtime_trust : Bool
  pub ocsp_transport : Option Transport
  pub assertion_issuer : Option (Issuer Private)
  pub published_keys : Option (KeySet Public)

-- The key set of an issuer does not replace one that is published already.
abbrev pub publish_if_unset :
    {Public : Type 0} → KeySet Public → Option (KeySet Public) → Option (KeySet Public)
publish_if_unset keys none = some keys
publish_if_unset keys (some published) = some published

-- Option
abbrev pub NewOption : Type 0 → Type 0 → Type 0 → Type 0
NewOption Private Public S = Settings Private Public S → Settings Private Public S

module _ {Private Public S : Type 0} where
  -- The settings with which New starts.
  unfoldable pub default_settings : Configuration → Settings Private Public S
  default_settings cfg = record {
    nonces = in_process (new_session_store cfg);
    runtime_trust = false;
    ocsp_transport = none;
    assertion_issuer = none;
    published_keys = none;
  }

  -- WithNonceStore
  unfoldable pub with_nonce_store : Option S → NewOption Private Public S
  with_nonce_store none h = h
  with_nonce_store (some s) h = record h { nonces = supplied s }

  -- WithAssertionIssuer
  unfoldable pub with_assertion_issuer :
      Ecdsa Private Public → Option (Issuer Private) → NewOption Private Public S
  with_assertion_issuer e none h = record h { assertion_issuer = none }
  with_assertion_issuer e (some iss) h = record h {
    assertion_issuer = some iss;
    published_keys = publish_if_unset (key_set e iss) h.published_keys;
  }

  -- WithPublishedJWKS
  unfoldable pub with_published_jwks : Option (KeySet Public) → NewOption Private Public S
  with_published_jwks none h = h
  with_published_jwks (some keys) h = record h { published_keys = some keys }

  -- WithRuntimeTrust
  unfoldable pub with_runtime_trust : NewOption Private Public S
  with_runtime_trust h = record h { runtime_trust = true }

  -- WithOCSPTransport
  unfoldable pub with_ocsp_transport : Option Transport → NewOption Private Public S
  with_ocsp_transport rt h = record h { ocsp_transport = rt }

  -- The loop of New over the options.
  unfoldable pub apply_options : List (NewOption Private Public S) → NewOption Private Public S
  apply_options [] h = h
  apply_options (o ∷ opts) h = apply_options opts (o h)
