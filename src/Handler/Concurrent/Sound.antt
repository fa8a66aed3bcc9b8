-- ===== src/Handler/Concurrent/Sound.antt =====
-- What holds of the answer to a task, whatever the other tasks do in between: a condition on each
-- of its steps, and that every step of any task keeps all of them.
use go_web_eid.Common.{
  ℕ, zero, suc, some, subst, ◌≡◌, refl, sym, ap, ◌∙◌, inl, inr, List, [], ◌∷◌, arith,
}
use go_web_eid.Go.Text.{Text}
use go_web_eid.Go.Time.{zero_time}
use go_web_eid.Exceptions.{Result, ok, Result-cases}
use go_web_eid.Certificate.Trust.{TrustStore, reload}
use go_web_eid.Nonce.Challenge.{ChallengeNonce}
use go_web_eid.Nonce.Memory.{InMemoryStore, put, get_and_remove}
use go_web_eid.Nonce.Memory.Laws.{IsValid, nonce_of, no_session_lem}
use go_web_eid.Nonce.Memory.Traces.{
  gets, step, step-IsValid, session_key-step, step_origin, get_answer, answer_of-eq-ok,
}
use go_web_eid.Nonce.Memory.Traces
use go_web_eid.Nonce.Store.{ChallengeNonceStore}
use go_web_eid.Handler.Session.{Context, session_key}
use go_web_eid.Handler.Settings.{in_process}
use go_web_eid.Handler.Build.{Handler}
use go_web_eid.Handler.Concurrent.Task.{
  Task, done, loads, swaps, puts, takes, advance, advance_at, interleave,
}

module _ (Held : TrustStore → Type 0) (IssuedFor : Text → ChallengeNonce → Type 0) where
  -- Whatever held set and issued nonce it finds, and whatever the calls answer, the task ends with
  -- `P`, issues the nonces that it puts, and makes a set that it puts in place a held one.
  abbrev pub Sound : {R : Type 0} → (R → Type 0) → Task R → Type 0
  Sound P (done r) = P r
  Sound P (loads next) = (ts : TrustStore) → Held ts → Sound P (next ts)
  Sound P (swaps cas next) =
      ((ts : TrustStore) → Held ts → Held (reload ts cas).1)
      × ((r : Result (Unit {0})) → Sound P (next r))
  Sound P (puts ctx now n next) =
      ((k : Text) → session_key ctx ≡ ok k → IssuedFor k n)
      × ((r : Result (Unit {0})) → Sound P (next r))
  Sound P (takes ctx now next) =
      (r : Result ChallengeNonce)
      → ((n : ChallengeNonce) → r ≡ ok n → (k : Text) × (session_key ctx ≡ ok k) × IssuedFor k n)
      → Sound P (next r)

  -- Each task ends with its own condition.
  abbrev pub AllSound : {R : Type 0} → List (R → Type 0) → List (Task R) → Type 0
  AllSound [] [] = Unit {0}
  AllSound (P ∷ Ps) (t ∷ ts) = Sound P t × AllSound Ps ts
  AllSound _ _ = ⊥

  module _ {Private Public S : Type 0} where
    -- The handler keeps its nonces in process, all of them issued, and its trusted set is held.
    pub record Shares (h : Handler Private Public S) : Type 0 where
      pub store : InMemoryStore Context
      pub nonces : h.settings.nonces ≡ in_process store
      pub valid : IsValid store
      pub keyed : store.session_key ≡ session_key
      pub issued : (k : Text) (n : ChallengeNonce) → nonce_of store k ≡ some n → IssuedFor k n
      pub held : Held h.trust

    taken_was_issued :
        (h : Handler Private Public S) (s : Shares h) (ctx : Context) (n : ChallengeNonce)
        → (get_and_remove s.store ctx).0 ≡ ok n
        → (k : Text) × (session_key ctx ≡ ok k) × IssuedFor k n
    taken_was_issued h s ctx n answered =
        let key = ap (λ f. f ctx) s.keyed in
        elim (Result-cases (s.store.session_key ctx)) [
          | inr (f, no_session) ↦
              absurd (ground (arith, no_session_lem s.store ctx zero_time n f no_session))
          | inl (k, keyed) ↦ (
            k,
            sym key ∙ keyed,
            s.issued k n (
                answer_of-eq-ok (nonce_of s.store k) n
                  (sym (get_answer s.store.session_key k s.store ctx keyed s.valid) ∙ answered)),
          )
        ]

    module _ {R : Type 0} (ops : ChallengeNonceStore Context S) where
      advance-Sound :
          (P : R → Type 0) (h : Handler Private Public S) (t : Task R)
          → Shares h
          → Sound P t
          → Sound P (advance ops h t).0 × Shares (advance ops h t).1
      unfolding advance step
      advance-Sound P h (done r) s sound = (sound, s)
      advance-Sound P h (loads next) s sound = (sound h.trust s.held, s)
      advance-Sound P h (swaps cas next) s sound = (
        sound.1 (reload h.trust cas).0,
        record {
          store = s.store;
          nonces = s.nonces;
          valid = s.valid;
          keyed = s.keyed;
          issued = s.issued;
          held = sound.0 h.trust s.held;
        },
      )
      advance-Sound P h (puts ctx now n next) s sound = rw (s.nonces) (
        sound.1 (put s.store ctx now n).0,
        record {
          store = (put s.store ctx now n).1;
          nonces = refl;
          valid = step-IsValid s.store (Traces.puts ctx now n) s.valid;
          keyed = session_key-step s.store (Traces.puts ctx now n) ∙ s.keyed;
          issued = λ k m found.
              elim (step_origin session_key k s.store (Traces.puts ctx now n) m s.keyed s.valid
                found) [
                  | inl before ↦ s.issued k m before
                  | inr (keyed, same) ↦ subst (IssuedFor k) same (sound.0 k keyed)
                ];
          held = s.held;
        },
      )
      advance-Sound P h (takes ctx now next) s sound = rw (s.nonces) (
        sound (get_and_remove s.store ctx).0 (taken_was_issued h s ctx),
        record {
          store = (get_and_remove s.store ctx).1;
          nonces = refl;
          valid = step-IsValid s.store (gets ctx) s.valid;
          keyed = session_key-step s.store (gets ctx) ∙ s.keyed;
          issued = λ k m found.
              elim (step_origin session_key k s.store (gets ctx) m s.keyed s.valid found) [
                | inl before ↦ s.issued k m before
                | inr never ↦ elim never [ ]
              ];
          held = s.held;
        },
      )

      advance_at-AllSound :
          (i : ℕ) (Ps : List (R → Type 0)) (ts : List (Task R)) (h : Handler Private Public S)
          → Shares h
          → AllSound Ps ts
          → AllSound Ps (advance_at ops i (ts, h)).0 × Shares (advance_at ops i (ts, h)).1
      unfolding advance_at
      advance_at-AllSound i [] [] h s sound = (tt, s)
      advance_at-AllSound i [] (t ∷ ts) h s sound = elim sound [ ]
      advance_at-AllSound i (P ∷ Ps) [] h s sound = elim sound [ ]
      advance_at-AllSound zero (P ∷ Ps) (t ∷ ts) h s sound =
          let (first, shares) = advance-Sound P h t s sound.0 in ((first, sound.1), shares)
      advance_at-AllSound (suc i) (P ∷ Ps) (t ∷ ts) h s sound =
          let (rest, shares) = advance_at-AllSound i Ps ts h s sound.1 in ((sound.0, rest), shares)

      -- Every schedule keeps the condition of every task.
      pub interleave-AllSound :
          (is : List ℕ) (Ps : List (R → Type 0)) (ts : List (Task R)) (h : Handler Private Public S)
          → Shares h
          → AllSound Ps ts
          → AllSound Ps (interleave ops is (ts, h)).0 × Shares (interleave ops is (ts, h)).1
      unfolding interleave
      interleave-AllSound [] Ps ts h s sound = (sound, s)
      interleave-AllSound (i ∷ is) Ps ts h s sound =
          let (next, shares) = advance_at-AllSound i Ps ts h s sound in
          interleave-AllSound is Ps (advance_at ops i (ts, h)).0 (advance_at ops i (ts, h)).1 shares
            next
