-- ===== src/Validator/Origin/Laws.antt =====
-- Which origins are accepted.
use go_web_eid.Common.{Bool, true, ◌≡◌, ◌≢◌, ◌↔◌, ◌⊎◌, inl, inr, [], ◌++◌, arith}
use go_web_eid.Go.Text.{Text, Unicode, codes, to_lower, trim_suffix, text_eq_iff}
use go_web_eid.Go.Url.{Url, ParseUrl}
use go_web_eid.Exceptions.{ok, Result-cases}
use go_web_eid.Validator.Origin.{is_loopback_host, normalize_url, normalize_origin}

-- The host is a name of the local loopback.
abbrev pub IsLoopback : Unicode → Text → Type 0
IsLoopback u host =
    (to_lower u host ≡ codes "localhost")
    ⊎ ((to_lower u host ≡ codes "127.0.0.1") ⊎ (to_lower u host ≡ codes "::1"))

-- An https URL, or an http URL of the loopback where that is allowed, with a host, and without a
-- path, a query and a fragment; it may have a user.
abbrev pub IsOrigin : Unicode → Bool → Url → Type 0
IsOrigin u allow v =
    ((v.scheme ≡ codes "https")
      ⊎ ((allow ≡ true) × (v.scheme ≡ codes "http") × IsLoopback u v.hostname))
    × (v.host ≢ [])
    × ((v.path ≡ []) ⊎ (v.path ≡ codes "/"))
    × (v.raw_query ≡ [])
    × (v.fragment ≡ [])

is_loopback_host_iff :
    (u : Unicode) (host : Text) → (is_loopback_host u host ≡ true) ↔ IsLoopback u host
unfolding is_loopback_host
is_loopback_host_iff u host = ground (
  arith,
  text_eq_iff (to_lower u host) (codes "localhost"),
  text_eq_iff (to_lower u host) (codes "127.0.0.1"),
  text_eq_iff (to_lower u host) (codes "::1"),
)

normalize_url_iff :
    (u : Unicode) (allow : Bool) (v : Url) (o : Text)
    → (normalize_url u allow v ≡ ok o)
      ↔ (IsOrigin u allow v × (o ≡ trim_suffix b'/' (v.scheme ++ codes "://" ++ v.host)))
unfolding normalize_url
normalize_url_iff u allow v o = ground (
  arith,
  is_loopback_host_iff u v.hostname,
  text_eq_iff v.scheme (codes "https"),
  text_eq_iff v.scheme (codes "http"),
  text_eq_iff v.path (codes "/"),
)

-- An origin is accepted exactly if it parses as a URL with https, or with http for the loopback
-- where that is allowed, that has a host and neither a path but "/" nor a query nor a fragment,
-- whether or not it has a user; its normal form is scheme://host, without the user.
pub normalize_origin_iff :
    (u : Unicode) (parse : ParseUrl) (origin : Text) (allow : Bool) (o : Text)
    → (normalize_origin u parse origin allow ≡ ok o) ↔ (
        (v : Url) × (parse origin ≡ ok v)
        × IsOrigin u allow v
        × (o ≡ trim_suffix b'/' (v.scheme ++ codes "://" ++ v.host)))
unfolding normalize_origin
normalize_origin_iff u parse origin allow o = elim (Result-cases (parse origin)) [
  | inl (v, parsed) ↦ (
    λ h.
        let (is_origin, same) = (normalize_url_iff u allow v o).0 (ground arith) in
        (v, parsed, is_origin, same),
    λ (w, read, is_origin, same).
        ground (arith, (normalize_url_iff u allow w o).1 (is_origin, same)),
  )
  | inr (e, failed) ↦ (λ h. absurd (ground arith), λ (w, read, is_origin, same). ground arith)
]
