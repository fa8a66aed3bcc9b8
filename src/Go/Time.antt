-- ===== src/Go/Time.antt =====
-- time.Time as nanoseconds from the Unix epoch, time.Duration as a signed count of nanoseconds.
pub mod Laws
use go_web_eid.Common.{
  ℕ, ◌^◌, ◌-◌, ◌*◌, ◌/◌, Bool, true, false, ℤ, pos, negsuc, ◌+ℤ◌, ◌-ℤ◌, ◌*ℤ◌, ltb_ℤ, if◌then◌else◌,
}

abbrev pub Time : Type 0
Time = ℤ

abbrev pub Duration : Type 0
Duration = ℤ

abbrev pub second : ℕ
second = 1000000000

abbrev pub seconds : ℕ → Duration
seconds n = pos (n * 1000000000)

abbrev pub minutes : ℕ → Duration
minutes n = pos (n * 60000000000)

-- The year 1, which IsZero tests.
abbrev pub zero_time : Time
zero_time = negsuc (62135596800000000000 - 1)

abbrev pub max_duration : Duration
max_duration = pos (2 ^ 63 - 1)

abbrev pub min_duration : Duration
min_duration = negsuc (2 ^ 63 - 1)

unfoldable pub before : Time → Time → Bool
before t u = ltb_ℤ t u

unfoldable pub after : Time → Time → Bool
after t u = ltb_ℤ u t

unfoldable pub add : Time → Duration → Time
add t d = t +ℤ d

-- t.Sub(u) saturates at the bounds of a Duration.
unfoldable pub saturate : ℤ → Duration
saturate d =
    if ltb_ℤ max_duration d then max_duration else if ltb_ℤ d min_duration then min_duration else d

unfoldable pub sub : Time → Time → Duration
unfolding saturate
sub t u = saturate (t -ℤ u)

-- A sum or difference of two int64 wraps.
abbrev pub wrap_int64 : ℤ → ℤ
wrap_int64 d =
    if ltb_ℤ max_duration d
    then d -ℤ pos (2 ^ 64)
    else if ltb_ℤ d min_duration
    then d +ℤ pos (2 ^ 64)
    else d

unfoldable pub add_duration : Duration → Duration → Duration
add_duration d e = wrap_int64 (d +ℤ e)

unfoldable pub negate : Duration → Duration
negate d = wrap_int64 (pos 0 -ℤ d)

unfoldable pub is_zero : Time → Bool
is_zero t = if ltb_ℤ t zero_time then false else if ltb_ℤ zero_time t then false else true

-- t.Unix(): whole seconds, rounded down.
unfoldable pub unix_seconds : Time → ℤ
unix_seconds (pos n) = pos (n / second)
unix_seconds (negsuc n) = negsuc (n / second)

-- The seconds from the year 1 to the Unix epoch.
abbrev pub unix_to_internal : ℤ
unix_to_internal = pos 62135596800

-- time.Unix(sec, 0). A time keeps its seconds from the year 1 as an int64, which the sum wraps.
unfoldable pub of_unix : ℤ → Time
of_unix s = (wrap_int64 (s +ℤ unix_to_internal) -ℤ unix_to_internal) *ℤ pos second
