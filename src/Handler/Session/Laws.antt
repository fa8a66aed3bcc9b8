-- ===== src/Handler/Session/Laws.antt =====
-- Which requests reach a handler behind EnsureSession, and in which session.
use go_web_eid.Common.{
  ◌≡◌, ◌≢◌, sym, ap, subst, ◌∙◌, ◌↔◌, ◌⊎◌, inl, inr, true, false, none, some, List, [], ◌∷◌, arith,
  Any,
}
use go_web_eid.Go.Text.{Text, Bytes, Unicode}
use go_web_eid.Go.Url.{ParseUrl}
use go_web_eid.Go.Base64.{Base64, IsCodec}
use go_web_eid.Exceptions.{ok, is_ok, Result-cases}
use go_web_eid.Handler.Configuration.{Configuration}
use go_web_eid.Handler.Session.{
  host_matches, host_matches_any, origin_hostnames, check_host, Http, Session, set_session_cookie,
  session_id_bytes, new_session_id, valid_session_id, ensure_session,
}

host_matches_any_iff :
    (u : Unicode) (host : Text) (ohs : List Text)
    → (host_matches_any u host ohs ≡ true) ↔ Any (λ oh. host_matches u host oh ≡ true) ohs
unfolding host_matches_any
host_matches_any_iff u host [] = ground arith
host_matches_any_iff u host (oh ∷ ohs) = ground (arith, host_matches_any_iff u host ohs)

module _ (u : Unicode) (parse : ParseUrl) where
  -- The host is that of a configured origin, unless that is not asked for or no origin has one.
  abbrev pub HostAccepted : Configuration → Text → Type 0
  HostAccepted cfg host =
      (cfg.enforce_host_header ≡ false)
      ⊎ (origin_hostnames u parse cfg.origins ≡ [])
      ⊎ Any (λ oh. host_matches u host oh ≡ true) (origin_hostnames u parse cfg.origins)

  check_host_iff :
      (cfg : Configuration) (host : Text)
      → (check_host u parse cfg host ≡ ok tt) ↔ HostAccepted cfg host
  unfolding check_host
  check_host_iff cfg host =
      ground (arith, host_matches_any_iff u host (origin_hostnames u parse cfg.origins))

module _ (b64 : Base64) where
  -- A session identifier that is kept: some text that base64 decodes.
  abbrev pub IsSessionId : Text → Type 0
  IsSessionId sid = (sid ≢ []) × (is_ok (b64.decode_raw_url sid) ≡ true)

  valid_session_id_iff : (sid : Text) → (valid_session_id b64 sid ≡ true) ↔ IsSessionId sid
  unfolding valid_session_id
  valid_session_id_iff sid = ground arith

  module _ (u : Unicode) (parse : ParseUrl) where
    -- The session that a request belongs to.
    abbrev pub SessionOf : Configuration → Http → Session → Type 0
    SessionOf cfg http s =
        (IsSessionId http.cookie × (s ≡ record { id = http.cookie; cookie = none }))
        ⊎ ((¬ IsSessionId http.cookie)
            × (buf : Bytes) × (http.random session_id_bytes ≡ ok buf)
            × (s ≡ record {
              id = b64.encode_raw_url buf;
              cookie = some (
                  set_session_cookie cfg.session_cookie_name (b64.encode_raw_url buf)
                    cfg.nonce_ttl);
            }))

    -- EnsureSession lets a request through exactly if its host is accepted and its cookie has a
    -- session identifier, which is its session then, or it has none and 32 random bytes could be
    -- read, of which a new session is made, with a cookie that says so and lives as long as a nonce.
    pub ensure_session_iff :
        (cfg : Configuration) (http : Http) (s : Session)
        → (ensure_session b64 u parse cfg http ≡ ok s)
          ↔ (HostAccepted u parse cfg http.host × SessionOf cfg http s)
    unfolding ensure_session new_session_id
    ensure_session_iff cfg http s = ground (
      arith,
      check_host_iff u parse cfg http.host,
      valid_session_id_iff http.cookie,
      Result-cases (http.random session_id_bytes),
      Result-cases (check_host u parse cfg http.host),
    )

    -- A browser that sends the cookie back stays in its session: after a request was let through,
    -- any request for an accepted host with the identifier of that session as its cookie is let
    -- through in the same session, and no cookie is set; base64 decodes what it encodes, and the
    -- identifier is not empty.
    pub session_kept :
        (cfg : Configuration) (http http' : Http) (s : Session)
        → IsCodec b64
        → ensure_session b64 u parse cfg http ≡ ok s
        → s.id ≢ []
        → http'.cookie ≡ s.id
        → HostAccepted u parse cfg http'.host
        → ensure_session b64 u parse cfg http' ≡ ok (record { id = s.id; cookie = none })
    session_kept cfg http http' s codec first named sent accepted =
        let (host, of) = (ensure_session_iff cfg http s).0 first in
        let back : IsSessionId http'.cookie = subst IsSessionId (sym sent) (
          named,
          elim of [
            | inl (kept, same) ↦ ap (λ t. is_ok (b64.decode_raw_url t.id)) same ∙ kept.1
            | inr (fresh, buf, read, same) ↦
                ap (λ t. is_ok (b64.decode_raw_url t.id)) same
                ∙ ap is_ok (codec.decode-encode_raw_url buf)
          ],
        ) in
        (ensure_session_iff cfg http' (record { id = s.id; cookie = none })).1
          (accepted, inl (back, ap (λ id. record { id = id; cookie = none }) (sym sent)))
