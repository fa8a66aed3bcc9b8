-- ===== src/Nonce/Memory.antt =====
-- store_memory.go: the in-process store. The mutex makes each method one atomic step on the
-- entries; a request's context and the clock's value are arguments.
pub mod Laws
pub mod Traces
pub mod Lasting
pub mod Counting
use go_web_eid.Common.{ℤ, pos, Bool, ltb_ℤ, Option, none, some, List, [], if◌then◌else◌}
use go_web_eid.Go.Text.{Text}
use go_web_eid.Go.Time.{Time, Duration, minutes}
use go_web_eid.Go.Map
use go_web_eid.Go.Map.{Map}
use go_web_eid.Exceptions.{Result, ok, err, err_challenge_nonce_not_found}
use go_web_eid.Nonce.Challenge.{ChallengeNonce, expired}

-- nonce.go: DefaultNonceTTL
abbrev pub default_nonce_ttl : Duration
default_nonce_ttl = minutes 5

-- SessionKeyFunc, over the contexts `C`
abbrev pub SessionKeyFunc : Type 0 → Type 0
SessionKeyFunc C = C → Result Text

-- A duration that is not positive.
abbrev pub is_unset : Duration → Bool
is_unset d = ltb_ℤ d (pos 1)

-- InMemoryStore
pub record InMemoryStore (C : Type 0) : Type 0 where
  pub session_key : SessionKeyFunc C
  pub ttl : Duration
  pub entries : Map ChallengeNonce

module _ {C : Type 0} where
  -- NewInMemoryStore
  unfoldable pub new_in_memory_store : SessionKeyFunc C → Duration → InMemoryStore C
  new_in_memory_store key ttl = record {
    session_key = key;
    ttl = if is_unset ttl then default_nonce_ttl else ttl;
    entries = [];
  }

  -- sweepLocked
  pub sweep_locked : InMemoryStore C → Time → InMemoryStore C
  sweep_locked s now = record s { entries = Map.delete_if (λ n. expired n now s.ttl) s.entries }

  abbrev put_at :
      InMemoryStore C → Time → ChallengeNonce → Result Text → Result (Unit {0}) × InMemoryStore C
  put_at s now nonce (err e) = (err e, s)
  put_at s now nonce (ok key) =
      let swept = sweep_locked s now in
      (ok tt, record swept { entries = Map.insert key nonce swept.entries })

  -- Put
  unfoldable pub put :
      InMemoryStore C → C → Time → ChallengeNonce → Result (Unit {0}) × InMemoryStore C
  unfolding sweep_locked
  put s ctx now nonce = put_at s now nonce (s.session_key ctx)

  abbrev take_out :
      InMemoryStore C → Text → Option ChallengeNonce → Result ChallengeNonce × InMemoryStore C
  take_out s key none = (err err_challenge_nonce_not_found, s)
  take_out s key (some nonce) = (ok nonce, record s { entries = Map.delete key s.entries })

  abbrev get_at : InMemoryStore C → Result Text → Result ChallengeNonce × InMemoryStore C
  get_at s (err e) = (err e, s)
  get_at s (ok key) = take_out s key (Map.lookup key s.entries)

  -- GetAndRemove
  unfoldable pub get_and_remove : InMemoryStore C → C → Result ChallengeNonce × InMemoryStore C
  get_and_remove s ctx = get_at s (s.session_key ctx)
