-- ===== src/Ocsp/Freshness/Laws.antt =====
-- The freshness of a response as inequalities between times.
use go_web_eid.Common.{
  true, ◌≡◌, ◌↔◌, ◌⊎◌, arith, pos, ◌<ℤ◌, ◌≤ℤ◌, ◌+ℤ◌, ◌-ℤ◌, +ℤ_parts, -ℤ_parts, ◌^◌, ltb_ℤ, some,
}
use go_web_eid.Go.Time.{
  Time, Duration, before, after, add, sub, add_duration, negate, is_zero, saturate, zero_time,
}
use go_web_eid.Exceptions.{GoError, ok, err, error_code, ocsp_request_failed}
use go_web_eid.Ocsp.Options.{Checker}
use go_web_eid.Ocsp.Request.{Response}
use go_web_eid.Ocsp.Freshness.{check_freshness}

-- A duration of a checker: positive, and short enough that no sum of two of them wraps.
abbrev pub IsReasonable : Duration → Type 0
IsReasonable d = (pos 0 <ℤ d) × (d <ℤ pos (2 ^ 62))

add-negate_lt :
    (t u : Time) (skew : Duration)
    → IsReasonable skew
    → (before u (add t (negate skew)) ≡ true) ↔ (add u skew <ℤ t)
unfolding before add negate
add-negate_lt t u skew h =
    ground (arith, -ℤ_parts (pos 0) skew, +ℤ_parts t (pos 0 -ℤ skew), +ℤ_parts u skew)

age_lt :
    (t u : Time) (d e : Duration)
    → IsReasonable d
    → IsReasonable e
    → (ltb_ℤ (add_duration d e) (sub t u) ≡ true) ↔ (add (add u d) e <ℤ t)
unfolding add sub saturate add_duration
age_lt t u d e h k = ground (arith, -ℤ_parts t u, +ℤ_parts u d, +ℤ_parts (u +ℤ d) e, +ℤ_parts d e)

is_zero_iff : (t : Time) → (is_zero t ≡ true) ↔ (t ≡ zero_time)
unfolding is_zero
is_zero_iff t = ground arith

-- A response is fresh exactly if thisUpdate is at most the skew ahead of the time, nextUpdate, if
-- there is one, is at most the skew behind it, and the time is at most the age limit plus the skew
-- past thisUpdate; for a positive skew and age limit below 2^62 nanoseconds.
pub check_freshness_iff :
    (c : Checker) (resp : Response) (now : Time)
    → IsReasonable c.allowed_response_time_skew
    → IsReasonable c.max_response_this_update_age
    → (check_freshness c resp now ≡ ok tt) ↔ (
        (resp.this_update ≤ℤ add now c.allowed_response_time_skew)
        × ((resp.next_update ≡ zero_time)
            ⊎ (now ≤ℤ add resp.next_update c.allowed_response_time_skew))
        × (now
            ≤ℤ add
                (add resp.this_update c.max_response_this_update_age)
                c.allowed_response_time_skew))
unfolding check_freshness after
check_freshness_iff c resp now hs ha = ground (
  arith,
  is_zero_iff resp.next_update,
  add-negate_lt now resp.next_update c.allowed_response_time_skew hs,
  age_lt now resp.this_update c.max_response_this_update_age c.allowed_response_time_skew ha hs,
)

pub check_freshness-error :
    (c : Checker) (resp : Response) (now : Time) (e : GoError)
    → check_freshness c resp now ≡ err e
    → error_code e ≡ some ocsp_request_failed
unfolding check_freshness
check_freshness-error c resp now e h = ground arith
