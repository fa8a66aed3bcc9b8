-- ===== src/Handler/Concurrent/Task.antt =====
-- A request that is being served, as its next access to what the requests share, and what it does
-- with the answer. A call of the nonce store is atomic, by the mutex of the in-process store; the
-- trusted set is loaded and replaced atomically, by the pointer of the trust store.
use go_web_eid.Common.{ℕ, zero, suc, ◌≡◌, refl, List, [], ◌∷◌}
use go_web_eid.Go.Time.{Time}
use go_web_eid.Exceptions.{GoError, Result, ok, err}
use go_web_eid.Certificate.X509.{Certificate}
use go_web_eid.Certificate.Trust.{TrustStore, reload}
use go_web_eid.Nonce.Challenge.{ChallengeNonce}
use go_web_eid.Nonce.Store.{ChallengeNonceStore}
use go_web_eid.Handler.Session.{Context}
use go_web_eid.Handler.Settings.{Nonces, put_nonce, take_nonce}
use go_web_eid.Handler.Build.{Handler}
use go_web_eid.Handler.Authentication.{with_nonces}

pub data Task (R : Type 0) : Type 0 where
  done : R → Task R
  loads : (TrustStore → Task R) → Task R
  swaps : List Certificate → (Result (Unit {0}) → Task R) → Task R
  puts : Context → Time → ChallengeNonce → (Result (Unit {0}) → Task R) → Task R
  takes : Context → Time → (Result ChallengeNonce → Task R) → Task R

-- The step after a call that does not touch what is shared.
abbrev pub on_result {ℓ} :
    {A : Type ℓ} {R : Type 0} → Result A → (GoError → Task R) → (A → Task R) → Task R
on_result (err e) failed next = failed e
on_result (ok a) failed next = next a

-- A condition that both steps have, each where the call answers so.
pub on_result_elim {ℓ} :
    {A : Type ℓ} {R : Type 0} (P : Task R → Type 0) (r : Result A) (failed : GoError → Task R)
    (next : A → Task R)
    → ((e : GoError) → r ≡ err e → P (failed e))
    → ((a : A) → r ≡ ok a → P (next a))
    → P (on_result r failed next)
on_result_elim P (err e) failed next on_err on_ok = on_err e refl
on_result_elim P (ok a) failed next on_err on_ok = on_ok a refl

module _ {Private Public S R : Type 0} where
  abbrev swapped :
      Handler Private Public S
      → (Result (Unit {0}) → Task R)
      → Result (Unit {0}) × TrustStore
      → Task R × Handler Private Public S
  swapped h next (r, ts) = (next r, record h { trust = ts })

  abbrev called {ℓ} :
      {A : Type ℓ}
      → Handler Private Public S
      → (A → Task R)
      → A × Nonces S
      → Task R × Handler Private Public S
  called h next (a, nonces) = (next a, with_nonces h nonces)

  module _ (ops : ChallengeNonceStore Context S) where
    -- One step of a task.
    unfoldable pub advance : Handler Private Public S → Task R → Task R × Handler Private Public S
    advance h (done r) = (done r, h)
    advance h (loads next) = (next h.trust, h)
    advance h (swaps cas next) = swapped h next (reload h.trust cas)
    advance h (puts ctx now n next) = called h next (put_nonce ops h.settings.nonces ctx now n)
    advance h (takes ctx now next) = called h next (take_nonce ops h.settings.nonces ctx now)

    -- The steps of a task to its end, with no other task in between.
    unfoldable pub complete : Handler Private Public S → Task R → R × Handler Private Public S
    complete h (done r) = (r, h)
    complete h (loads next) = complete h (next h.trust)
    complete h (swaps cas next) =
        let (r, ts) = reload h.trust cas in complete (record h { trust = ts }) (next r)
    complete h (puts ctx now n next) =
        let (r, nonces) = put_nonce ops h.settings.nonces ctx now n in
        complete (with_nonces h nonces) (next r)
    complete h (takes ctx now next) =
        let (r, nonces) = take_nonce ops h.settings.nonces ctx now in
        complete (with_nonces h nonces) (next r)

    abbrev pub with_first :
        List (Task R) → Task R × Handler Private Public S → List (Task R) × Handler Private Public S
    with_first ts (t, h) = (t ∷ ts, h)

    abbrev pub after_first :
        Task R → List (Task R) × Handler Private Public S → List (Task R) × Handler Private Public S
    after_first t (ts, h) = (t ∷ ts, h)

    -- One step of the task at a position; there may be none at it.
    unfoldable pub advance_at :
        ℕ → List (Task R) × Handler Private Public S → List (Task R) × Handler Private Public S
    unfolding advance
    advance_at i ([], h) = ([], h)
    advance_at zero (t ∷ ts, h) = with_first ts (advance h t)
    advance_at (suc i) (t ∷ ts, h) = after_first t (advance_at i (ts, h))

    -- A schedule: the positions of the tasks that go, one after another.
    unfoldable pub interleave :
        List ℕ → List (Task R) × Handler Private Public S → List (Task R) × Handler Private Public S
    unfolding advance_at
    interleave [] s = s
    interleave (i ∷ is) s = interleave is (advance_at i s)
