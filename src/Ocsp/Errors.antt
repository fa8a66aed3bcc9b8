-- ===== src/Ocsp/Errors.antt =====
-- ocsp/errors.go, with the errors of ocsp/aia.go and ocsp/checker.go: why a revocation check failed.
use go_web_eid.Exceptions.{GoError, plain}

abbrev pub err_nonce_mismatch : GoError
err_nonce_mismatch = plain "OCSP response nonce does not match request"

abbrev pub err_unknown_status : GoError
err_unknown_status = plain "OCSP responder returned unknown certificate status"

abbrev pub err_this_update_in_future : GoError
err_this_update_in_future = plain "OCSP response thisUpdate is in the future"

abbrev pub err_response_expired : GoError
err_response_expired = plain "OCSP response nextUpdate has passed"

abbrev pub err_this_update_too_old : GoError
err_this_update_too_old = plain "OCSP response thisUpdate is too old"

abbrev pub err_no_ocsp_responder : GoError
err_no_ocsp_responder = plain "certificate has no OCSP responder URL"

abbrev pub err_responder_not_allowed : GoError
err_responder_not_allowed = plain "AIA OCSP responder URL is not on the configured allowlist"
