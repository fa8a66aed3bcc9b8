-- ===== src/Go/Time/Laws.antt =====
-- The seconds of a claim as a time.
use go_web_eid.Common.{◌≡◌, ap, pos, negsuc, ℤ, ◌≤ℤ◌, ◌+ℤ◌, ◌-ℤ◌, ◌*ℤ◌, ◌^◌, ◌-◌, arith}
use go_web_eid.Go.Time.{second, of_unix, unix_to_internal, wrap_int64}

-- The seconds of an int64, up to the bound where the sum with the years before the epoch wraps, are
-- counted from the epoch.
of_unix-eq :
    (s : ℤ)
    → negsuc (2 ^ 63 - 1) ≤ℤ s
    → s ≤ℤ pos (2 ^ 63 - 1 - 62135596800)
    → of_unix s ≡ s *ℤ pos second
unfolding of_unix ◌+ℤ◌ ◌-ℤ◌
of_unix-eq s low high = ap (λ n. n *ℤ pos second) kept
  where
    kept : wrap_int64 (s +ℤ unix_to_internal) -ℤ unix_to_internal ≡ s
    kept = ground arith
