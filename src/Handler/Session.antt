-- ===== src/Handler/Session.antt =====
-- azugo/session.go: the pre-auth session cookie, the check of the Host header, and the key of a
-- session's nonce. What rand.Read reads is an argument, by the number of bytes asked for.
pub mod Laws
use go_web_eid.Common.{
  ℕ, ◌/◌, Bool, true, false, ◌&&◌, ◌||◌, not, ℤ, pos, negsuc, Option, none, some, List, [], ◌∷◌,
  ◌++◌, ◌==◌, ltb_ℤ, is_empty, if◌then◌else◌,
}
use go_web_eid.Go.Text.{
  Text, Bytes, Unicode, codes, text_eq, to_lower, trim_space, trim_prefix, trim_suffix, ends_with,
  contains_byte,
}
use go_web_eid.Go.Time.{Duration, second}
use go_web_eid.Go.Url.{Url, ParseUrl}
use go_web_eid.Go.Base64.{Base64}
use go_web_eid.Exceptions.{GoError, plain, safe, Result, ok, err, ◌>>=◌, ◌>>◌, is_ok}
use go_web_eid.Nonce.Generator.{Random}
use go_web_eid.Handler.Configuration.{Configuration}

abbrev pub err_no_session : GoError
err_no_session = plain "no web eid session on request"

-- A context: the session's identifier, if the middleware has put one there.
abbrev pub Context : Type 0
Context = Option Text

-- SessionKey
unfoldable pub session_key : Context → Result Text
session_key none = err err_no_session
session_key (some []) = err err_no_session
session_key (some (c ∷ s)) = ok (c ∷ s)

-- strings.LastIndex at a byte: what stands before and after its last place.
unfoldable pub cut_last : ℕ → Text → Option (Text × Text)
cut_last b [] = none
cut_last b (c ∷ s) = elim (cut_last b s) [
  | some (before, after) ↦ some (c ∷ before, after)
  | none ↦ if c == b then some ([], s) else none
]

-- The port of a host is stripped, but nothing of a bracketed address without one.
abbrev pub before_port : Text → Option (Text × Text) → Text
before_port h none = h
before_port h (some (before, after)) =
    if ends_with b']' h then h else if contains_byte b']' after then h else before

-- An address without its brackets.
abbrev pub unbracket : Text → Text
unbracket h = trim_suffix b']' (trim_prefix h (codes "["))

module _ (u : Unicode) where
  -- hostMatches
  unfoldable pub host_matches : Text → Text → Bool
  unfolding cut_last
  host_matches request_host origin_host =
      let h = to_lower u (trim_space u request_host) in
      if is_empty h
      then false
      else text_eq (unbracket (before_port h (cut_last b':' h))) (unbracket origin_host)

  -- hostMatchesAny
  unfoldable pub host_matches_any : Text → List Text → Bool
  host_matches_any request_host [] = false
  host_matches_any request_host (oh ∷ ohs) =
      host_matches request_host oh || host_matches_any request_host ohs

  module _ (parse : ParseUrl) where
    abbrev pub hostname_in : Result Url → Text
    hostname_in (err e) = []
    hostname_in (ok v) = if is_empty v.host then [] else to_lower u v.hostname

    -- originHostname
    unfoldable pub origin_hostname : Text → Text
    origin_hostname origin = hostname_in (parse origin)

    -- originHostnames
    unfoldable pub origin_hostnames : List Text → List Text
    unfolding origin_hostname
    origin_hostnames [] = []
    origin_hostnames (o ∷ os) =
        let rest = origin_hostnames os in
        if is_empty (origin_hostname o) then rest else origin_hostname o ∷ rest

-- The error of a request for another host.
abbrev pub err_host_mismatch : GoError
err_host_mismatch =
    safe "request host does not match the configured origin"
      "request host does not match the configured origin" 400

module _ (u : Unicode) (parse : ParseUrl) where
  -- The check of the Host header.
  unfoldable pub check_host : Configuration → Text → Result (Unit {0})
  check_host cfg host =
      let hosts = origin_hostnames u parse cfg.origins in
      if (cfg.enforce_host_header && not (is_empty hosts)) && not (host_matches_any u host hosts)
      then err err_host_mismatch
      else ok tt

abbrev pub session_id_bytes : ℕ
session_id_bytes = 32

-- The cookie of setSessionCookie; it is always HttpOnly, Secure and SameSite=Strict, with the path
-- "/". The maximal age is in seconds.
pub record SessionCookie : Type 0 where
  pub name : Text
  pub value : Text
  pub max_age : Option ℕ

abbrev pub max_age_of : Duration → Option ℕ
max_age_of (pos n) = if n == 0 then none else some (n / second)
max_age_of (negsuc n) = none

-- setSessionCookie
unfoldable pub set_session_cookie : Text → Text → Duration → SessionCookie
set_session_cookie name value ttl = record { name = name; value = value; max_age = max_age_of ttl }

-- What the middleware reads of a request, and what rand.Read would answer.
pub record Http : Type 0 where
  pub host : Text
  pub cookie : Text
  pub random : Random

-- The session that the next handler sees, and the cookie that the response sets, if any.
pub record Session : Type 0 where
  pub id : Text
  pub cookie : Option SessionCookie

module _ (b64 : Base64) where
  -- newSessionID
  unfoldable pub new_session_id : Random → Result Text
  new_session_id random = do buf ← random session_id_bytes; ok (b64.encode_raw_url buf)

  -- validSessionID
  unfoldable pub valid_session_id : Text → Bool
  valid_session_id sid = if is_empty sid then false else is_ok (b64.decode_raw_url sid)

  module _ (u : Unicode) (parse : ParseUrl) where
    -- EnsureSession, up to the call of the next handler.
    unfoldable pub ensure_session : Configuration → Http → Result Session
    unfolding check_host
    ensure_session cfg http = do
      check_host u parse cfg http.host
      if valid_session_id http.cookie then ok (record { id = http.cookie; cookie = none }) else do
        sid ← new_session_id http.random
        ok (record {
          id = sid;
          cookie = some (set_session_cookie cfg.session_cookie_name sid cfg.nonce_ttl);
        })
