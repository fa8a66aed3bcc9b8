-- ===== src/Nonce/Memory/Traces.antt =====
-- Any interleaving of the requests of any sessions, as a sequence of atomic steps of the store.
use go_web_eid.Common.{
  ◌≡◌, refl, sym, ◌∙◌, ap, Option-cases, ◌⊎◌, inl, inr, Option, none, some, List, [], ◌∷◌, arith,
  All, Any,
}
use go_web_eid.Go.Text.{Text, text_eq_iff}
use go_web_eid.Go.Time.{Time, Duration, zero_time}
use go_web_eid.Go.Map.{lookup}
use go_web_eid.Exceptions.{Result-cases, Result, ok, err, err_challenge_nonce_not_found}
use go_web_eid.Nonce.Challenge.{ChallengeNonce}
use go_web_eid.Nonce.Memory.{
  InMemoryStore, SessionKeyFunc, new_in_memory_store, put, get_and_remove,
}
use go_web_eid.Nonce.Memory.Laws.{
  nonce_of, IsValid, answer_of, put-IsValid, get_and_remove-IsValid, refines_map, no_session_lem,
  session_key-put, session_key-get,
}

-- One call of a method, with its context and, for Put, the time of its sweep.
pub data Call (C : Type 0) : Type 0 where
  puts : C → Time → ChallengeNonce → Call C
  gets : C → Call C

module _ {C : Type 0} where
  unfoldable pub step : InMemoryStore C → Call C → InMemoryStore C
  step s (puts ctx now n) = (put s ctx now n).1
  step s (gets ctx) = (get_and_remove s ctx).1

  unfoldable pub run : InMemoryStore C → List (Call C) → InMemoryStore C
  unfolding step
  run s [] = s
  run s (c ∷ cs) = run (step s c) cs

  pub step-IsValid : (s : InMemoryStore C) (c : Call C) → IsValid s → IsValid (step s c)
  unfolding step
  step-IsValid s (puts ctx now n) h = put-IsValid s ctx now n h
  step-IsValid s (gets ctx) h = get_and_remove-IsValid s ctx h

  pub run-IsValid : (s : InMemoryStore C) (cs : List (Call C)) → IsValid s → IsValid (run s cs)
  unfolding run
  run-IsValid s [] h = h
  run-IsValid s (c ∷ cs) h = run-IsValid (step s c) cs (step-IsValid s c h)

  pub session_key-step : (s : InMemoryStore C) (c : Call C) → (step s c).session_key ≡ s.session_key
  unfolding step
  session_key-step s (puts ctx now n) = session_key-put s ctx now n
  session_key-step s (gets ctx) = session_key-get s ctx

-- The laws of Put and GetAndRemove come together; this stands for the argument that Put wants.
abbrev some_nonce : ChallengeNonce
some_nonce = record { base64_encoded_nonce = []; issued_at = zero_time }

-- A call that puts a nonce for the session `k`.
abbrev pub PutsFor : {C : Type 0} → SessionKeyFunc C → Text → Call C → Type 0
PutsFor key k (puts ctx now n) = key ctx ≡ ok k
PutsFor key k (gets ctx) = ⊥

-- A call that puts the nonce `n` for the session `k`.
abbrev pub PutsNonce : {C : Type 0} → SessionKeyFunc C → Text → ChallengeNonce → Call C → Type 0
PutsNonce key k n (puts ctx now m) = (key ctx ≡ ok k) × (m ≡ n)
PutsNonce key k n (gets ctx) = ⊥

module _ {C : Type 0} (key : SessionKeyFunc C) (k : Text) where
  -- What a session has after a call, it had before or the call put it there.
  pub step_origin :
      (s : InMemoryStore C) (c : Call C) (n : ChallengeNonce)
      → s.session_key ≡ key
      → IsValid s
      → nonce_of (step s c) k ≡ some n
      → (nonce_of s k ≡ some n) ⊎ PutsNonce key k n c
  unfolding step
  step_origin s (puts ctx now m) n same h e = elim (Result-cases (s.session_key ctx)) [
    | inl (j, f) ↦ ground (
      arith,
      refines_map s ctx j now m h f,
      (refines_map s ctx j now m h f).1 k,
      text_eq_iff j k,
      ap (λ (g : SessionKeyFunc C). g ctx) same,
    )
    | inr (g, f) ↦ inl (
        ap (λ (r : Result (Unit {0}) × InMemoryStore C). nonce_of r.1 k)
          (sym (no_session_lem s ctx now m g f).0)
        ∙ e)
  ]
  step_origin s (gets ctx) n same h e = elim (Result-cases (s.session_key ctx)) [
    | inl (j, f) ↦ inl (ground (arith, (refines_map s ctx j zero_time n h f).3 k))
    | inr (g, f) ↦ inl (
        ap (λ (r : Result ChallengeNonce × InMemoryStore C). nonce_of r.1 k)
          (sym (no_session_lem s ctx zero_time n g f).1)
        ∙ e)
  ]

  run_origin :
      (s : InMemoryStore C) (cs : List (Call C)) (n : ChallengeNonce)
      → s.session_key ≡ key
      → IsValid s
      → nonce_of (run s cs) k ≡ some n
      → (nonce_of s k ≡ some n) ⊎ Any (PutsNonce key k n) cs
  unfolding run
  run_origin s [] n same h e = inl e
  run_origin s (c ∷ cs) n same h e =
      elim (run_origin (step s c) cs n (session_key-step s c ∙ same) (step-IsValid s c h) e) [
        | inr later ↦ inr (inr later)
        | inl held ↦ elim (step_origin s c n same h held) [
          | inl before ↦ inl before
          | inr now ↦ inr (inl now)
        ]
      ]

  PutsFor-of_PutsNonce : (c : Call C) (n : ChallengeNonce) → PutsNonce key k n c → PutsFor key k c
  PutsFor-of_PutsNonce (puts ctx now m) n h = h.0
  PutsFor-of_PutsNonce (gets ctx) n h = h

  none-PutsNonce :
      (cs : List (Call C)) (n : ChallengeNonce)
      → All (λ c. ¬ PutsFor key k c) cs
      → Any (PutsNonce key k n) cs
      → ⊥
  none-PutsNonce [] n none_for h = elim h [ ]
  none-PutsNonce (c ∷ cs) n none_for (inl h) = none_for.0 (PutsFor-of_PutsNonce c n h)
  none-PutsNonce (c ∷ cs) n none_for (inr h) = none-PutsNonce cs n none_for.1 h

  pub get_removes :
      (s : InMemoryStore C) (ctx : C)
      → s.session_key ctx ≡ ok k
      → IsValid s
      → nonce_of (get_and_remove s ctx).1 k ≡ none
  get_removes s ctx e h =
      ground (arith, (refines_map s ctx k zero_time some_nonce h e).3 k, text_eq_iff k k)

  pub get_answer :
      (s : InMemoryStore C) (ctx : C)
      → s.session_key ctx ≡ ok k
      → IsValid s
      → (get_and_remove s ctx).0 ≡ answer_of (nonce_of s k)
  get_answer s ctx e h = (refines_map s ctx k zero_time some_nonce h e).2

pub session_key-run :
    {C : Type 0} (s : InMemoryStore C) (cs : List (Call C)) → (run s cs).session_key ≡ s.session_key
unfolding run
session_key-run s [] = refl
session_key-run s (c ∷ cs) = session_key-run (step s c) cs ∙ session_key-step s c

-- Single use: after a call of GetAndRemove for a session, whatever it answered, another call for
-- that session fails with "not found", whatever calls of any sessions lie between, as long as none
-- of them puts a nonce for it.
pub single_use :
    {C : Type 0} (s : InMemoryStore C) (ctx ctx' : C) (k : Text) (cs : List (Call C))
    → IsValid s
    → s.session_key ctx ≡ ok k
    → s.session_key ctx' ≡ ok k
    → All (λ c. ¬ PutsFor s.session_key k c) cs
    → (get_and_remove (run (get_and_remove s ctx).1 cs) ctx').0 ≡ err err_challenge_nonce_not_found
single_use {C} s ctx ctx' k cs h e e' none_for =
    get_answer key k last ctx' (ap (λ (f : SessionKeyFunc C). f ctx') same ∙ e') valid
    ∙ ap answer_of (elim (Option-cases (nonce_of last k)) [
      | inl absent ↦ absent
      | inr (m, found) ↦
          absurd (elim (run_origin key k taken cs m (session_key-get s ctx) kept found) [
            | inl held ↦ cc (held, get_removes key k s ctx e h)
            | inr put_again ↦ none-PutsNonce key k cs m none_for put_again
          ])
    ])
  where
    key : SessionKeyFunc C
    key = s.session_key

    taken : InMemoryStore C
    taken = (get_and_remove s ctx).1

    last : InMemoryStore C
    last = run taken cs

    kept : IsValid taken
    kept = get_and_remove-IsValid s ctx h

    valid : IsValid last
    valid = run-IsValid taken cs kept

    same : last.session_key ≡ s.session_key
    same = session_key-run taken cs ∙ session_key-get s ctx

pub answer_of-eq-ok :
    (o : Option ChallengeNonce) (n : ChallengeNonce) → answer_of o ≡ ok n → o ≡ some n
answer_of-eq-ok o n h = ground arith

-- Provenance: a nonce that GetAndRemove answers to a session after any calls on a new store was put
-- for that session by one of them.
pub answered_was_put :
    {C : Type 0} (key : SessionKeyFunc C) (ttl : Duration) (cs : List (Call C)) (ctx : C) (k : Text)
    (n : ChallengeNonce)
    → key ctx ≡ ok k
    → (get_and_remove (run (new_in_memory_store key ttl) cs) ctx).0 ≡ ok n
    → Any (PutsNonce key k n) cs
unfolding new_in_memory_store lookup
answered_was_put {C} key ttl cs ctx k n e answered = elim (run_origin key k new cs n refl tt held) [
  | inl h ↦ cc h
  | inr h ↦ h
]
  where
    new : InMemoryStore C
    new = new_in_memory_store key ttl

    found : answer_of (nonce_of (run new cs) k) ≡ ok n
    found =
        sym (
          get_answer key k (run new cs) ctx
            (ap (λ (f : SessionKeyFunc C). f ctx) (session_key-run new cs) ∙ e)
            (run-IsValid new cs tt))
        ∙ answered

    held : nonce_of (run new cs) k ≡ some n
    held = answer_of-eq-ok (nonce_of (run new cs) k) n found
