-- ===== src/Ocsp/Freshness.antt =====
-- ocsp/checker.go: checkFreshness.
pub mod Laws
use go_web_eid.Ocsp.Errors.{
  err_this_update_in_future, err_response_expired, err_this_update_too_old,
}
use go_web_eid.Common.{ltb_ℤ, not, ◌&&◌, if◌then◌else◌}
use go_web_eid.Go.Time.{Time, before, after, add, sub, add_duration, negate, is_zero}
use go_web_eid.Exceptions.{plain, Result, ok, err}
use go_web_eid.Ocsp.Options.{Checker}
use go_web_eid.Ocsp.Request.{Response, wrap_ocsp_error}

-- checkFreshness
unfoldable pub check_freshness : Checker → Response → Time → Result (Unit {0})
check_freshness c resp now =
    let skew = c.allowed_response_time_skew in
    if after resp.this_update (add now skew)
    then err (wrap_ocsp_error err_this_update_in_future)
    else if not (is_zero resp.next_update) && before resp.next_update (add now (negate skew))
    then err (wrap_ocsp_error err_response_expired)
    else if ltb_ℤ (add_duration c.max_response_this_update_age skew) (sub now resp.this_update)
    then err (wrap_ocsp_error err_this_update_too_old)
    else ok tt
