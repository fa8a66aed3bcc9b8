-- ===== src/Validator/Origin.antt =====
-- validator.go: normalizeOrigin.
pub mod Laws
use go_web_eid.Common.{
  Bool, true, false, ◌&&◌, ◌||◌, not, List, [], ◌∷◌, ◌++◌, if◌then◌else◌, is_empty,
}
use go_web_eid.Go.Text.{Text, Unicode, codes, text_eq, to_lower, trim_suffix}
use go_web_eid.Go.Url.{Url, ParseUrl}
use go_web_eid.Exceptions.{GoError, plain, Result, ok, err}

abbrev pub err_origin_required : GoError
err_origin_required = plain "site origin is required"

-- isLoopbackHost
unfoldable pub is_loopback_host : Unicode → Text → Bool
is_loopback_host u host =
    let h = to_lower u host in
    text_eq h (codes "localhost") || (text_eq h (codes "127.0.0.1") || text_eq h (codes "::1"))

abbrev pub with_https : Bool → Url → Bool → Result (Unit {0})
with_https allow v loopback =
    if not (text_eq v.scheme (codes "https"))
    then if (not allow || not (text_eq v.scheme (codes "http"))) || not loopback
      then err (plain "site origin must use https")
      else ok tt
    else ok tt

-- The checks of normalizeOrigin on a parsed URL, and the origin that it answers.
unfoldable pub normalize_url : Unicode → Bool → Url → Result Text
normalize_url u allow v = elim (with_https allow v (is_loopback_host u v.hostname)) [
  | err e ↦ err e
  | ok _ ↦
      if is_empty v.host
      then err err_origin_required
      else if ((not (is_empty v.path) && not (text_eq v.path (codes "/")))
            || not (is_empty v.raw_query))
          || not (is_empty v.fragment)
      then err (plain "site origin must not contain a path, query or fragment")
      else ok (trim_suffix b'/' (v.scheme ++ codes "://" ++ v.host))
]

abbrev pub normalize_parsed : Unicode → Bool → Result Url → Result Text
normalize_parsed u allow (err e) = err err_origin_required
normalize_parsed u allow (ok v) = normalize_url u allow v

-- normalizeOrigin; the flag is allowInsecureLocalhost.
unfoldable pub normalize_origin : Unicode → ParseUrl → Text → Bool → Result Text
normalize_origin u parse origin allow = normalize_parsed u allow (parse origin)
