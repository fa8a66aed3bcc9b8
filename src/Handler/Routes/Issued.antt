-- ===== src/Handler/Routes/Issued.antt =====
-- Which requests put a nonce for a session.
use go_web_eid.Common.{
  ℕ, ◌≡◌, ◌≢◌, refl, sym, ap, ◌⊎◌, inl, inr, Option, some, List, [], ◌∷◌, ◌++◌, arith, All, Any,
}
use go_web_eid.Go.Text.{Text, Bytes}
use go_web_eid.Go.Time.{Time}
use go_web_eid.Exceptions.{Result, ok, err}
use go_web_eid.Platform.{Platform}
use go_web_eid.Nonce.Challenge.{ChallengeNonce}
use go_web_eid.Nonce.Memory.{SessionKeyFunc}
use go_web_eid.Nonce.Memory.Traces.{Call, puts, gets, PutsFor, PutsNonce}
use go_web_eid.Handler.Configuration.{Configuration}
use go_web_eid.Handler.Session.{Http, Session, SessionCookie, session_key}
use go_web_eid.Handler.Authentication.{LoginRequest}
use go_web_eid.Handler.Routes.{
  Request, get_challenge, post_login, post_validate, post_certificate, post_finalize, get_jwks,
  reload,
}
use go_web_eid.Handler.Routes.Calls.{
  nonce_at, session_for, challenge_calls, login_calls, calls, all_calls,
}

-- A request of the session `k`, which its cookie had or the middleware has just made.
abbrev pub InSession : Platform → Configuration → Http → Text → Type 0
InSession p cfg http k =
    (c : Option SessionCookie) × (session_for p cfg http ≡ ok (record { id = k; cookie = c }))

-- A challenge for the session `k`.
abbrev pub ChallengesFor : Platform → Configuration → Text → Request → Type 0
ChallengesFor p cfg k (get_challenge http now drawn) = InSession p cfg http k
ChallengesFor p cfg k _ = ⊥

-- A challenge that issued the nonce `n` to the session `k`.
abbrev pub Issued : Platform → Configuration → ℕ → Text → ChallengeNonce → Request → Type 0
Issued p cfg size k n (get_challenge http now drawn) =
    InSession p cfg http k × (buf : Bytes) × (drawn size ≡ ok buf) × (n ≡ nonce_at p now buf)
Issued p cfg size k n _ = ⊥

session_key-eq : (id k : Text) → session_key (some id) ≡ ok k → id ≡ k
unfolding session_key
session_key-eq id k h = ground arith

pub session_key_of : (k : Text) → k ≢ [] → session_key (some k) ≡ ok k
unfolding session_key
session_key_of k h = ground arith

pub same_session :
    (s : Session) (k : Text)
    → session_key (some s.id) ≡ ok k
    → (c : Option SessionCookie) × (ok s ≡ ok (record { id = k; cookie = c }))
same_session s k keyed =
    (s.cookie, ap (λ id. ok (record { id = id; cookie = s.cookie })) (session_key-eq s.id k keyed))

All-not {ℓ κ} : {A : Type ℓ} (P : A → Type κ) (xs : List A) → (Any P xs → ⊥) → All (λ x. ¬ P x) xs
All-not P [] h = tt
All-not P (x ∷ xs) h = (λ a. h (inl a), All-not P xs (λ a. h (inr a)))

Any-append {ℓ κ} :
    {A : Type ℓ} (P : A → Type κ) (xs ys : List A) → Any P (xs ++ ys) → Any P xs ⊎ Any P ys
Any-append P [] ys h = inr h
Any-append P (x ∷ xs) ys (inl h) = inl (inl h)
Any-append P (x ∷ xs) ys (inr h) = elim (Any-append P xs ys h) [
  | inl l ↦ inl (inr l)
  | inr r ↦ inr r
]

some_nonce_put :
    {C : Type 0} (key : SessionKeyFunc C) (k : Text) (cs : List (Call C))
    → Any (PutsFor key k) cs
    → (n : ChallengeNonce) × Any (PutsNonce key k n) cs
some_nonce_put key k [] h = elim h [ ]
some_nonce_put key k (puts ctx now n ∷ cs) (inl h) = (n, inl (h, refl))
some_nonce_put key k (gets ctx ∷ cs) (inl h) = elim h [ ]
some_nonce_put key k (c ∷ cs) (inr h) = let (n, later) = some_nonce_put key k cs h in (n, inr later)

module _ (p : Platform) (size : ℕ) (k : Text) where
  challenge_put :
      (n : ChallengeNonce) (r : Result Session) (now : Time) (read : Result Bytes)
      → Any (PutsNonce session_key k n) (challenge_calls p r now read)
      → ((c : Option SessionCookie) × (r ≡ ok (record { id = k; cookie = c })))
        × (buf : Bytes) × (read ≡ ok buf)
        × (n ≡ nonce_at p now buf)
  challenge_put n (err f) now read h = elim h [ ]
  challenge_put n (ok s) now (err f) h = elim h [ ]
  challenge_put n (ok s) now (ok buf) (inl (keyed, same)) =
      (same_session s k keyed, buf, refl, sym same)
  challenge_put n (ok s) now (ok buf) (inr h) = elim h [ ]

  login_put :
      (n : ChallengeNonce) (r : Result Session) (body : Result LoginRequest)
      → Any (PutsNonce session_key k n) (login_calls p r body)
      → ⊥
  login_put n (err f) body h = elim h [ ]
  login_put n (ok s) (err f) h = elim h [ ]
  login_put n (ok s) (ok req) (inl h) = elim h [ ]
  login_put n (ok s) (ok req) (inr h) = elim h [ ]

  module _ (cfg : Configuration) where
    -- The call that put a nonce for the session is that of a challenge.
    put_by :
        (n : ChallengeNonce) (r : Request)
        → Any (PutsNonce session_key k n) (calls p cfg size r)
        → Issued p cfg size k n r
    unfolding calls
    put_by n (get_challenge http now drawn) h =
        challenge_put n (session_for p cfg http) now (drawn size) h
    put_by n (post_login http body o) h = login_put n (session_for p cfg http) body h
    put_by n (post_validate required body o) h = elim h [ ]
    put_by n (post_certificate http body m) h = elim h [ ]
    put_by n (post_finalize http body) h = elim h [ ]
    put_by n get_jwks h = elim h [ ]
    put_by n (reload os) h = elim h [ ]

    pub calls-Issued :
        (n : ChallengeNonce) (rs : List Request)
        → Any (PutsNonce session_key k n) (all_calls p cfg size rs)
        → Any (Issued p cfg size k n) rs
    unfolding all_calls
    calls-Issued n [] h = h
    calls-Issued n (r ∷ rs) h =
        elim (Any-append (PutsNonce session_key k n) (calls p cfg size r) (all_calls p cfg size rs)
          h) [ inl now ↦ inl (put_by n r now) | inr later ↦ inr (calls-Issued n rs later) ]

    none-Issued :
        (n : ChallengeNonce) (rs : List Request)
        → All (λ r. ¬ ChallengesFor p cfg k r) rs
        → Any (Issued p cfg size k n) rs
        → ⊥
    none-Issued n [] none_for h = elim h [ ]
    none-Issued n (get_challenge http now drawn ∷ rs) none_for (inl h) = none_for.0 h.0
    none-Issued n (post_login http body o ∷ rs) none_for (inl h) = elim h [ ]
    none-Issued n (post_validate required body o ∷ rs) none_for (inl h) = elim h [ ]
    none-Issued n (post_certificate http body m ∷ rs) none_for (inl h) = elim h [ ]
    none-Issued n (post_finalize http body ∷ rs) none_for (inl h) = elim h [ ]
    none-Issued n (get_jwks ∷ rs) none_for (inl h) = elim h [ ]
    none-Issued n (reload os ∷ rs) none_for (inl h) = elim h [ ]
    none-Issued n (r ∷ rs) none_for (inr h) = none-Issued n rs none_for.1 h

    pub none_put :
        (rs : List Request)
        → All (λ r. ¬ ChallengesFor p cfg k r) rs
        → All (λ c. ¬ PutsFor session_key k c) (all_calls p cfg size rs)
    none_put rs none_for = All-not (PutsFor session_key k) (all_calls p cfg size rs) (λ h.
        let (n, put) = some_nonce_put session_key k (all_calls p cfg size rs) h in
        none-Issued n rs none_for (calls-Issued n rs put))
