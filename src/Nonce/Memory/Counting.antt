-- ===== src/Nonce/Memory/Counting.antt =====
-- Whether a session has a nonce, counted: what a call adds and what it takes away.
use go_web_eid.Common.{
  ℕ, ◌+◌, ◌≤◌, ◌≡◌, refl, inl, inr, Option, none, some, [], arith, if◌then◌else◌, Option-cases,
  Bool-cases,
}
use go_web_eid.Go.Text.{Text, text_eq, text_eq_iff}
use go_web_eid.Go.Time.{Time, zero_time}
use go_web_eid.Exceptions.{Result, ok, err, Result-cases}
use go_web_eid.Nonce.Challenge.{ChallengeNonce}
use go_web_eid.Nonce.Memory.{InMemoryStore, put, get_and_remove}
use go_web_eid.Nonce.Memory.Laws.{nonce_of, IsValid, no_session_lem}
use go_web_eid.Nonce.Memory.Traces.{puts, gets, step, step_origin, get_answer, get_removes}

abbrev pub held : Option ChallengeNonce → ℕ
held none = 0
held (some n) = 1

-- A call for the session `k`, by what the session key answers.
abbrev pub weight : Text → Result Text → ℕ
weight k (err e) = 0
weight k (ok j) = if text_eq k j then 1 else 0

-- What a call that takes a nonce out gains.
abbrev pub gain : ℕ → Result ChallengeNonce → ℕ
gain w (err e) = 0
gain w (ok n) = w

weight-of_ok : (k : Text) (r : Result Text) → r ≡ ok k → weight k r ≡ 1
weight-of_ok k r e = ground (arith, text_eq_iff k k)

-- This stands for the nonce of a call that is not made.
abbrev some_nonce : ChallengeNonce
some_nonce = record { base64_encoded_nonce = []; issued_at = zero_time }

module _ {C : Type 0} (s : InMemoryStore C) (k : Text) (valid : IsValid s) where
  pub held-put :
      (ctx : C) (now : Time) (n : ChallengeNonce)
      → held (nonce_of (put s ctx now n).1 k) ≤ held (nonce_of s k) + weight k (s.session_key ctx)
  unfolding step
  held-put ctx now n = elim (Option-cases (nonce_of (put s ctx now n).1 k)) [
    | inl absent ↦ rw (absent) (omega arith)
    | inr (m, found) ↦ elim (step_origin s.session_key k s (puts ctx now n) m refl valid found) [
      | inl before ↦ rw (found, before) (omega arith)
      | inr (keyed, same) ↦ rw (found) (omega (arith, weight-of_ok k (s.session_key ctx) keyed))
    ]
  ]

  held-get : (ctx : C) → held (nonce_of (get_and_remove s ctx).1 k) ≤ held (nonce_of s k)
  unfolding step
  held-get ctx = elim (Option-cases (nonce_of (get_and_remove s ctx).1 k)) [
    | inl absent ↦ rw (absent) (omega arith)
    | inr (m, found) ↦ elim (step_origin s.session_key k s (gets ctx) m refl valid found) [
      | inl before ↦ rw (found, before) (omega arith)
      | inr never ↦ elim never [ ]
    ]
  ]

  -- The nonce that a session takes out is one that it had, and it has none then.
  pub held-taken :
      (ctx : C)
      → held (nonce_of (get_and_remove s ctx).1 k)
          + gain (weight k (s.session_key ctx)) (get_and_remove s ctx).0
        ≤ held (nonce_of s k)
  held-taken ctx = elim (Result-cases (s.session_key ctx)) [
    | inr (f, no_session) ↦
        ground (arith, held-get ctx, no_session_lem s ctx zero_time some_nonce f no_session)
    | inl (j, keyed) ↦ elim (Bool-cases (text_eq k j)) [
      | inr other ↦ rw (keyed, other) (ground (arith, held-get ctx))
      | inl same ↦
          let mine : s.session_key ctx ≡ ok k = ground (arith, text_eq_iff k j) in
          rw
            (
              keyed,
              same,
              get_removes s.session_key k s ctx mine valid,
              get_answer s.session_key k s ctx mine valid,
            )
            (ground (arith, Option-cases (nonce_of s k)))
    ]
  ]
