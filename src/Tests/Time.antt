-- ===== src/Tests/Time.antt =====
-- The seconds of a claim as a time, near the bounds of an int64.
use go_web_eid.Common.{◌≡◌, refl, true, pos, ◌+ℤ◌, ◌-ℤ◌, ◌*ℤ◌, ◌^◌, ◌-◌}
use go_web_eid.Go.Time.{of_unix, before}

-- time.Unix of the greatest int64 is a time before the epoch.
far-before : before (of_unix (pos (2 ^ 63 - 1))) (pos 0) ≡ true
unfolding before of_unix ◌+ℤ◌ ◌-ℤ◌ ◌*ℤ◌
far-before = refl
