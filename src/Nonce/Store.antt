-- ===== src/Nonce/Store.antt =====
-- store.go: the interface ChallengeNonceStore, over contexts `C` and the states `S` of a store.
-- Every call has the time at which it runs.
use go_web_eid.Go.Time.{Time}
use go_web_eid.Exceptions.{Result}
use go_web_eid.Nonce.Challenge.{ChallengeNonce}
use go_web_eid.Nonce.Memory.{InMemoryStore, put, get_and_remove}

-- ChallengeNonceStore
pub record ChallengeNonceStore (C S : Type 0) : Type 0 where
  pub put : S → C → Time → ChallengeNonce → Result (Unit {0}) × S
  pub get_and_remove : S → C → Time → Result ChallengeNonce × S

-- The in-process store behind the interface.
abbrev pub in_memory : {C : Type 0} → ChallengeNonceStore C (InMemoryStore C)
in_memory = record { put = put; get_and_remove = λ s ctx now. get_and_remove s ctx }
