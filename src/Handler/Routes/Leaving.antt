-- ===== src/Handler/Routes/Leaving.antt =====
-- Which requests leave the nonce of a session where it is.
use go_web_eid.Common.{ℕ, ◌≡◌, false, Option, List, [], ◌∷◌, All, All-append}
use go_web_eid.Go.Text.{Text, Bytes}
use go_web_eid.Go.Time.{Time}
use go_web_eid.Exceptions.{Result, ok, err}
use go_web_eid.Platform.{Platform}
use go_web_eid.Nonce.Challenge.{ChallengeNonce, expired}
use go_web_eid.Nonce.Memory.Lasting.{Spares}
use go_web_eid.Handler.Configuration.{Configuration}
use go_web_eid.Handler.Session.{Session, SessionCookie, session_key}
use go_web_eid.Handler.Authentication.{LoginRequest}
use go_web_eid.Handler.Routes.{
  Request, get_challenge, post_login, post_validate, post_certificate, post_finalize, get_jwks,
  reload,
}
use go_web_eid.Handler.Routes.Calls.{session_for, challenge_calls, login_calls, calls, all_calls}
use go_web_eid.Handler.Routes.Issued.{InSession, same_session}

module _ (p : Platform) (size : ℕ) (k : Text) (cfg : Configuration) where
  -- A request that leaves the nonce `n` where it is: it is no challenge and no login of the
  -- session, and a challenge of another session does not sweep it.
  abbrev pub Leaves : ChallengeNonce → Request → Type 0
  Leaves n (get_challenge http now drawn) =
      (¬ InSession p cfg http k) × (expired n now cfg.nonce_ttl ≡ false)
  Leaves n (post_login http body o) = ¬ InSession p cfg http k
  Leaves n _ = Unit

  challenge_calls-Spares :
      (n : ChallengeNonce) (r : Result Session) (now : Time) (read : Result Bytes)
      → ¬ ((c : Option SessionCookie) × (r ≡ ok (record { id = k; cookie = c })))
      → expired n now cfg.nonce_ttl ≡ false
      → All (Spares session_key cfg.nonce_ttl k n) (challenge_calls p r now read)
  challenge_calls-Spares n (err f) now read h fresh = tt
  challenge_calls-Spares n (ok s) now (err f) h fresh = tt
  challenge_calls-Spares n (ok s) now (ok buf) h fresh =
      ((λ keyed. h (same_session s k keyed), fresh), tt)

  login_calls-Spares :
      (n : ChallengeNonce) (r : Result Session) (body : Result LoginRequest)
      → ¬ ((c : Option SessionCookie) × (r ≡ ok (record { id = k; cookie = c })))
      → All (Spares session_key cfg.nonce_ttl k n) (login_calls p r body)
  login_calls-Spares n (err f) body h = tt
  login_calls-Spares n (ok s) (err f) h = tt
  login_calls-Spares n (ok s) (ok req) h = (λ keyed. h (same_session s k keyed), tt)

  calls-Spares :
      (n : ChallengeNonce) (r : Request)
      → Leaves n r
      → All (Spares session_key cfg.nonce_ttl k n) (calls p cfg size r)
  unfolding calls
  calls-Spares n (get_challenge http now drawn) (other, fresh) =
      challenge_calls-Spares n (session_for p cfg http) now (drawn size) other fresh
  calls-Spares n (post_login http body o) other =
      login_calls-Spares n (session_for p cfg http) body other
  calls-Spares n (post_validate required body o) h = tt
  calls-Spares n (post_certificate http body m) h = tt
  calls-Spares n (post_finalize http body) h = tt
  calls-Spares n get_jwks h = tt
  calls-Spares n (reload os) h = tt

  pub all_calls-Spares :
      (n : ChallengeNonce) (rs : List Request)
      → All (Leaves n) rs
      → All (Spares session_key cfg.nonce_ttl k n) (all_calls p cfg size rs)
  unfolding all_calls
  all_calls-Spares n [] h = tt
  all_calls-Spares n (r ∷ rs) (now, later) =
      All-append (Spares session_key cfg.nonce_ttl k n) (calls p cfg size r)
        (all_calls p cfg size rs) (calls-Spares n r now) (all_calls-Spares n rs later)
