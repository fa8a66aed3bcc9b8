-- ===== src/Nonce/Memory/Lasting.antt =====
-- How long a nonce stays in the in-process store.
use go_web_eid.Common.{◌≡◌, refl, sym, subst, ◌∙◌, inl, inr, false, some, List, [], ◌∷◌, arith, All}
use go_web_eid.Go.Text.{Text, text_eq_iff}
use go_web_eid.Go.Time.{Duration, zero_time}
use go_web_eid.Exceptions.{Result-cases, ok}
use go_web_eid.Nonce.Challenge.{ChallengeNonce, expired}
use go_web_eid.Nonce.Memory.{InMemoryStore, SessionKeyFunc, put, get_and_remove}
use go_web_eid.Nonce.Memory.Laws.{nonce_of, IsValid, refines_map, no_session_lem}
use go_web_eid.Nonce.Memory.Traces.{Call, puts, gets, step, run, step-IsValid, session_key-step}

-- A call that neither replaces, takes nor sweeps the nonce `n` of the session `k`.
abbrev pub Spares :
    {C : Type 0} → SessionKeyFunc C → Duration → Text → ChallengeNonce → Call C → Type 0
Spares key ttl k n (puts ctx now m) = (¬ (key ctx ≡ ok k)) × (expired n now ttl ≡ false)
Spares key ttl k n (gets ctx) = ¬ (key ctx ≡ ok k)

module _ {C : Type 0} where
  pub ttl-step : (s : InMemoryStore C) (c : Call C) → (step s c).ttl ≡ s.ttl
  unfolding step put get_and_remove
  ttl-step s (puts ctx now n) = elim (Result-cases (s.session_key ctx)) [
    | inl (k, e) ↦ rw (step, e) refl
    | inr (f, e) ↦ rw (step, e) refl
  ]
  ttl-step s (gets ctx) = ground arith

  pub ttl-run : (s : InMemoryStore C) (cs : List (Call C)) → (run s cs).ttl ≡ s.ttl
  unfolding run
  ttl-run s [] = refl
  ttl-run s (c ∷ cs) = ttl-run (step s c) cs ∙ ttl-step s c

  step-Spares :
      (s : InMemoryStore C) (c : Call C) (k : Text) (n : ChallengeNonce)
      → IsValid s
      → Spares s.session_key s.ttl k n c
      → nonce_of s k ≡ some n
      → nonce_of (step s c) k ≡ some n
  unfolding step
  step-Spares s (puts ctx now m) k n h (other, fresh) held =
      elim (Result-cases (s.session_key ctx)) [
        | inl (j, e) ↦ ground (arith, (refines_map s ctx j now m h e).1 k, text_eq_iff j k)
        | inr (f, e) ↦ rw (step, (no_session_lem s ctx now m f e).0) held
      ]
  step-Spares s (gets ctx) k n h other held = elim (Result-cases (s.session_key ctx)) [
    | inl (j, e) ↦ ground (arith, (refines_map s ctx j zero_time n h e).3 k, text_eq_iff j k)
    | inr (f, e) ↦ rw (step, (no_session_lem s ctx zero_time n f e).1) held
  ]

  pub run-Spares :
      (s : InMemoryStore C) (cs : List (Call C)) (key : SessionKeyFunc C) (ttl : Duration)
      (k : Text) (n : ChallengeNonce)
      → IsValid s
      → s.session_key ≡ key
      → s.ttl ≡ ttl
      → All (Spares key ttl k n) cs
      → nonce_of s k ≡ some n
      → nonce_of (run s cs) k ≡ some n
  unfolding run
  run-Spares s [] key ttl k n h same lasts spares held = held
  run-Spares s (c ∷ cs) key ttl k n h same lasts (now, later) held =
      run-Spares (step s c) cs key ttl k n (step-IsValid s c h) (session_key-step s c ∙ same)
        (ttl-step s c ∙ lasts) later
        (step-Spares s c k n h
          (subst (λ f. Spares f s.ttl k n c) (sym same)
            (subst (λ d. Spares key d k n c) (sym lasts) now))
          held)
