-- ===== src/Nonce/Challenge.antt =====
-- store.go: a challenge nonce and its expiry, and what a store of nonces must provide.
use go_web_eid.Common.{Bool, ltb_ℤ, ◌≡◌, ◌↔◌, arith, ◌<ℤ◌, -ℤ_parts, +ℤ_parts}
use go_web_eid.Common.{true}
use go_web_eid.Go.Text.{Text}
use go_web_eid.Go.Time.{Time, Duration, sub, add, saturate, max_duration, min_duration}

-- ChallengeNonce
pub record ChallengeNonce : Type 0 where
  pub base64_encoded_nonce : Text
  pub issued_at : Time

-- Expired
unfoldable pub expired : ChallengeNonce → Time → Duration → Bool
expired n now ttl = ltb_ℤ ttl (sub now n.issued_at)

-- For a lifetime that is a Duration and not the longest one, a nonce has expired exactly when the
-- time is past its issue time plus the lifetime; the saturation of Sub does not show.
pub expired_iff :
    (n : ChallengeNonce) (now : Time) (ttl : Duration)
    → min_duration <ℤ ttl
    → ttl <ℤ max_duration
    → (expired n now ttl ≡ true) ↔ (add n.issued_at ttl <ℤ now)
unfolding expired sub saturate add
expired_iff n now ttl low high = ground (arith, -ℤ_parts now n.issued_at, +ℤ_parts n.issued_at ttl)
