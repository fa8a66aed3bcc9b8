-- ===== src/Nonce/Redis/Agreement.antt =====
-- The Redis store beside the in-process store: what both answer to the same calls, over a server
-- that does what Redis documents of SET with an expiry and of GETDEL for every key.
use go_web_eid.Common.{
  Bool, false, ◌≡◌, refl, sym, ap, subst, ◌∙◌, ◌++◌, Option, none, some, List, [], ◌∷◌, arith, ◌<ℤ◌,
  ◌≤ℤ◌, ltb_ℤ, if◌then◌else◌, inl, inr, Bool-cases,
}
use go_web_eid.Go.Text.{Text, Bytes, text_eq}
use go_web_eid.Go.Time.{Time, Duration, add, zero_time, max_duration, min_duration}
use go_web_eid.Go.Map.{lookup, unless}
use go_web_eid.Exceptions.{Result, ok, err, Result-cases, err_challenge_nonce_not_found}
use go_web_eid.Nonce.Challenge.{ChallengeNonce, expired, expired_iff}
use go_web_eid.Nonce.Memory.{InMemoryStore, new_in_memory_store, is_unset, default_nonce_ttl}
use go_web_eid.Nonce.Memory
use go_web_eid.Nonce.Memory.Laws.{
  nonce_of, IsValid, answer_of, refines_map, put-IsValid, get_and_remove-IsValid, session_key-put,
  session_key-get,
}
use go_web_eid.Nonce.Memory.Traces.{step}
use go_web_eid.Nonce.Memory.Traces
use go_web_eid.Nonce.Memory.Lasting.{ttl-step}
use mathlib.Core.Path.{ap₂}
use go_web_eid.Nonce.Redis.{Client, NonceJson, Store, received, put, get_and_remove}
use go_web_eid.Nonce.Redis.Laws.{ReadsBack, stored_nonce}

-- The value of a key, until its expiry.
abbrev pub live : Time → Option (Bytes × Time) → Option Bytes
live now none = none
live now (some (v, until)) = if ltb_ℤ now until then some v else none

-- Documented of Redis: SET stores a value with its expiry at the key, GETDEL answers what the key
-- has and removes it, and neither touches another key. `view` is what the server stores.
pub record IsServer {R : Type 0} (c : Client R) (view : R → Text → Option (Bytes × Time))
    : Type 0 where
  pub view-set :
      (r : R) (k : Text) (v : Bytes) (ttl : Duration) (t : Time)
      → (c.set r k v ttl t).0 ≡ ok tt
      → (j : Text)
      → view (c.set r k v ttl t).1 j ≡ (if text_eq k j then some (v, add t ttl) else view r j)
  pub get_del-view :
      (r : R) (k : Text) (t : Time) (o : Option Bytes)
      → (c.get_del r k t).0 ≡ ok o
      → o ≡ live t (view r k)
  pub view-get_del :
      (r : R) (k : Text) (t : Time) (o : Option Bytes)
      → (c.get_del r k t).0 ≡ ok o
      → (j : Text) → view (c.get_del r k t).1 j ≡ (if text_eq k j then none else view r j)

-- A call of a method at a time.
pub data TimedCall (C : Type 0) : Type 0 where
  puts : C → Time → ChallengeNonce → TimedCall C
  gets : C → Time → TimedCall C

-- A nonce that is past its lifetime counts as none.
abbrev pub in_time : Duration → Time → Result ChallengeNonce → Result ChallengeNonce
in_time ttl now (err e) = err e
in_time ttl now (ok n) =
    if ltb_ℤ now (add n.issued_at ttl) then ok n else err err_challenge_nonce_not_found

-- What the in-process store answers in time.
pub memory_answers :
    {C : Type 0} → InMemoryStore C → List (TimedCall C) → List (Result ChallengeNonce)
memory_answers m [] = []
memory_answers m (puts ctx now n ∷ cs) = memory_answers (Memory.put m ctx now n).1 cs
memory_answers m (gets ctx now ∷ cs) =
    in_time m.ttl now (Memory.get_and_remove m ctx).0
    ∷ memory_answers (Memory.get_and_remove m ctx).1 cs

-- This stands for the nonce of a call that is not made.
abbrev some_nonce : ChallengeNonce
some_nonce = record { base64_encoded_nonce = []; issued_at = zero_time }

prefixed_eq : (p k j : Text) → text_eq (p ++ k) (p ++ j) ≡ text_eq k j
unfolding text_eq
prefixed_eq [] k j = refl
prefixed_eq (c ∷ p) k j = ground (arith, prefixed_eq p k j)

module _ {C R : Type 0} (json : NonceJson) (s : Store C R) where
  -- What the Redis store answers.
  pub redis_answers : R → List (TimedCall C) → List (Result ChallengeNonce)
  redis_answers r [] = []
  redis_answers r (puts ctx now n ∷ cs) = redis_answers (put json s r ctx now n).1 cs
  redis_answers r (gets ctx now ∷ cs) =
      (get_and_remove json s r ctx now).0 ∷ redis_answers (get_and_remove json s r ctx now).1 cs

  received-in_time :
      (bs : Bytes) (n : ChallengeNonce) (u : Time)
      → json.unmarshal bs ≡ ok (stored_nonce n)
      → received json s (ok (live u (some (bs, add n.issued_at s.ttl)))) ≡ in_time s.ttl u (ok n)
  received-in_time bs n u read = elim (Bool-cases (ltb_ℤ u (add n.issued_at s.ttl))) [
    | inl early ↦ rw (early, read) refl
    | inr late ↦ rw (late) refl
  ]

  -- The calls come in the order of their times and have sessions, each nonce is put when it is
  -- issued and can be read back, and no command fails.
  unfoldable pub Goes : Time → R → List (TimedCall C) → Type 0
  Goes now r [] = Unit {0}
  Goes last r (puts ctx now n ∷ cs) =
      (last ≤ℤ now)
      × (n.issued_at ≡ now)
      × ((k : Text) × (s.session_key ctx ≡ ok k))
      × ReadsBack json (stored_nonce n)
      × ((put json s r ctx now n).0 ≡ ok tt)
      × Goes now (put json s r ctx now n).1 cs
  Goes last r (gets ctx now ∷ cs) =
      (last ≤ℤ now)
      × ((k : Text) × (s.session_key ctx ≡ ok k)
          × (o : Option Bytes) × ((s.client.get_del r (s.prefix ++ k) now).0 ≡ ok o))
      × Goes now (get_and_remove json s r ctx now).1 cs

  module _ (view : R → Text → Option (Bytes × Time)) where
    -- From `last` on, each session would be answered the same by both.
    Agrees : Time → R → InMemoryStore C → Type 0
    Agrees last r m =
        (j : Text) (u : Time)
        → last ≤ℤ u
        → received json s (ok (live u (view r (s.prefix ++ j))))
          ≡ in_time s.ttl u (answer_of (nonce_of m j))

    module _ (server : IsServer s.client view) (low : min_duration <ℤ s.ttl)
        (high : s.ttl <ℤ max_duration) where
      -- The sweep of Put drops nothing that is still in time.
      in_time-unless :
          (o : Option ChallengeNonce) (t u : Time)
          → t ≤ℤ u
          → in_time s.ttl u (answer_of (unless (λ n. expired n t s.ttl) o))
            ≡ in_time s.ttl u (answer_of o)
      in_time-unless none t u le = refl
      in_time-unless (some n) t u le = ground (arith, expired_iff n t s.ttl low high)

      Agrees-put :
          (last now : Time) (r : R) (m : InMemoryStore C) (ctx : C) (k : Text) (n : ChallengeNonce)
          → Agrees last r m
          → IsValid m
          → m.session_key ≡ s.session_key
          → m.ttl ≡ s.ttl
          → last ≤ℤ now
          → n.issued_at ≡ now
          → s.session_key ctx ≡ ok k
          → ReadsBack json (stored_nonce n)
          → (put json s r ctx now n).0 ≡ ok tt
          → Agrees now (put json s r ctx now n).1 (Memory.put m ctx now n).1
      unfolding Agrees put
      Agrees-put last now r m ctx k n agrees valid key ttl later issued found reads stored j u le =
          elim (Result-cases (json.marshal (stored_nonce n))) [
            | inr (f, failed) ↦ absurd (ground arith)
            | inl (bs, sealed) ↦
                let kept : (s.client.set r (s.prefix ++ k) bs s.ttl now).0 ≡ ok tt = ground arith in
                let mine : m.session_key ctx ≡ ok k = ap (λ f. f ctx) key ∙ found in
                rw
                  (
                    found,
                    sealed,
                    server.view-set r (s.prefix ++ k) bs s.ttl now kept (s.prefix ++ j),
                    prefixed_eq s.prefix k j,
                    (refines_map m ctx k now n valid mine).1 j,
                    ttl,
                  )
                  (elim (Bool-cases (text_eq k j)) [
                    | inl same ↦ rw (same) (
                        subst
                          (λ t.
                            received json s (ok (live u (some (bs, add t s.ttl))))
                            ≡ in_time s.ttl u (ok n))
                          issued (received-in_time bs n u (reads bs sealed)))
                    | inr other ↦
                        rw (other)
                          (agrees j u (omega arith) ∙ sym (in_time-unless (nonce_of m j) now u le))
                  ])
          ]

      Agrees-get :
          (last now : Time) (r : R) (m : InMemoryStore C) (ctx : C) (k : Text) (o : Option Bytes)
          → Agrees last r m
          → IsValid m
          → m.session_key ≡ s.session_key
          → last ≤ℤ now
          → s.session_key ctx ≡ ok k
          → (s.client.get_del r (s.prefix ++ k) now).0 ≡ ok o
          → ((get_and_remove json s r ctx now).0
              ≡ in_time s.ttl now (Memory.get_and_remove m ctx).0)
            × Agrees now (get_and_remove json s r ctx now).1 (Memory.get_and_remove m ctx).1
      unfolding Agrees get_and_remove
      Agrees-get last now r m ctx k o agrees valid key later found answered =
          let mine : m.session_key ctx ≡ ok k = ap (λ f. f ctx) key ∙ found in
          let law = refines_map m ctx k now some_nonce valid mine in
          (
            rw (found, answered, server.get_del-view r (s.prefix ++ k) now o answered, law.2)
                (agrees k now later),
            λ j u le.
                rw
                  (
                    found,
                    server.view-get_del r (s.prefix ++ k) now o answered (s.prefix ++ j),
                    prefixed_eq s.prefix k j,
                    law.3 j,
                  )
                  (elim (Bool-cases (text_eq k j)) [
                    | inl same ↦ rw (same) refl
                    | inr other ↦ rw (other) (agrees j u (omega arith))
                  ]),
          )

      -- For calls that go, stores that agree answer the same.
      answers-Agrees :
          (cs : List (TimedCall C)) (last : Time) (r : R) (m : InMemoryStore C)
          → Agrees last r m
          → IsValid m
          → m.session_key ≡ s.session_key
          → m.ttl ≡ s.ttl
          → Goes last r cs
          → redis_answers r cs ≡ memory_answers m cs
      unfolding redis_answers memory_answers Goes step
      answers-Agrees [] last r m agrees valid key ttl goes = refl
      answers-Agrees (puts ctx now n ∷ cs) last r m agrees valid key ttl goes =
          let (later, issued, (k, found), reads, stored, rest) = goes in
          answers-Agrees cs now (put json s r ctx now n).1 (Memory.put m ctx now n).1
            (Agrees-put last now r m ctx k n agrees valid key ttl later issued found reads stored)
            (put-IsValid m ctx now n valid) (session_key-put m ctx now n ∙ key)
            (ttl-step m (Traces.puts ctx now n) ∙ ttl) rest
      answers-Agrees (gets ctx now ∷ cs) last r m agrees valid key ttl goes =
          let (later, (k, found, o, answered), rest) = goes in
          let (same, after) =
            Agrees-get last now r m ctx k o agrees valid key later found answered in
          ap₂ ◌∷◌ (same ∙ ap (λ d. in_time d now (Memory.get_and_remove m ctx).0) (sym ttl)) (
            answers-Agrees cs now (get_and_remove json s r ctx now).1
              (Memory.get_and_remove m ctx).1 after (get_and_remove-IsValid m ctx valid)
              (session_key-get m ctx ∙ key) (ttl-step m (Traces.gets ctx) ∙ ttl) rest)

      -- The Redis store answers as the in-process store does: on a server that stores nothing yet
      -- and does what Redis documents, with a lifetime that is positive and not the longest one, for
      -- calls in the order of their times, with sessions, whose nonces are put when they are issued
      -- and can be read back, and of which no command fails, both answer the same nonces to the
      -- same calls, where a nonce of the in-process store that is past its lifetime counts as "not
      -- found".
      pub redis-memory :
          (cs : List (TimedCall C)) (start : Time) (r : R)
          → ((j : Text) → view r j ≡ none)
          → is_unset s.ttl ≡ false
          → Goes start r cs
          → redis_answers r cs ≡ memory_answers (new_in_memory_store s.session_key s.ttl) cs
      unfolding Agrees new_in_memory_store lookup
      redis-memory cs start r empty positive goes =
          answers-Agrees cs start r (new_in_memory_store s.session_key s.ttl)
            (λ j u later. rw (empty (s.prefix ++ j)) refl) tt refl
            (ap (λ (x : Bool). if x then default_nonce_ttl else s.ttl) positive) goes
