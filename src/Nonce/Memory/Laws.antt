-- ===== src/Nonce/Memory/Laws.antt =====
-- The store as a partial map from session keys to nonces: what each method does to it.
use go_web_eid.Common.{◌≡◌, inl, inr, Option, none, some, arith, if◌then◌else◌}
use go_web_eid.Go.Text.{Text, text_eq, text_eq_iff}
use go_web_eid.Go.Time.{Time, Duration}
use go_web_eid.Go.Map
use go_web_eid.Go.Map.{
  IsMap, unless, lookup-insert, lookup-delete, lookup-delete_if, insert-IsMap, delete-IsMap,
  delete_if-IsMap,
}
use go_web_eid.Exceptions.{GoError, Result-cases, Result, ok, err, err_challenge_nonce_not_found}
use go_web_eid.Nonce.Challenge.{ChallengeNonce, expired}
use go_web_eid.Nonce.Memory.{InMemoryStore, put, get_and_remove}

-- The nonce of a session.
abbrev pub nonce_of : {C : Type 0} → InMemoryStore C → Text → Option ChallengeNonce
nonce_of s k = Map.lookup k s.entries

-- Each session holds at most one nonce.
abbrev pub IsValid : {C : Type 0} → InMemoryStore C → Type 0
IsValid s = IsMap s.entries

-- What Put does to the map: the session has the new nonce, and the sweep drops what has expired.
abbrev pub map_after_put :
    Duration
    → Text
    → Time
    → ChallengeNonce
    → (Text → Option ChallengeNonce)
    → Text
    → Option ChallengeNonce
map_after_put ttl k now n f j =
    if text_eq k j then some n else unless (λ m. expired m now ttl) (f j)

-- What GetAndRemove answers, and what it does to the map.
abbrev pub answer_of : Option ChallengeNonce → Result ChallengeNonce
answer_of none = err err_challenge_nonce_not_found
answer_of (some n) = ok n

abbrev pub map_after_remove : Text → (Text → Option ChallengeNonce) → Text → Option ChallengeNonce
map_after_remove k f j = if text_eq k j then none else f j

module _ {C : Type 0} (s : InMemoryStore C) (ctx : C) where
  pub put-IsValid : (now : Time) (n : ChallengeNonce) → IsValid s → IsValid (put s ctx now n).1
  unfolding put
  put-IsValid now n h = elim (Result-cases (s.session_key ctx)) [
    | inl (k, e) ↦ rw e (insert-IsMap k n _ (delete_if-IsMap _ s.entries h))
    | inr (f, e) ↦ rw e h
  ]

  pub get_and_remove-IsValid : IsValid s → IsValid (get_and_remove s ctx).1
  unfolding get_and_remove
  get_and_remove-IsValid h = elim (Result-cases (s.session_key ctx)) [
    | inr (f, e) ↦ rw e h
    | inl (k, e) ↦ ground (arith, delete-IsMap k s.entries)
  ]

  -- In a store with one nonce for each session, Put of a session's nonce succeeds and acts on the
  -- map as specified, and GetAndRemove answers the nonce of the session, or "not found", and
  -- removes it and nothing else.
  pub refines_map :
      (k : Text) (now : Time) (n : ChallengeNonce)
      → IsValid s
      → s.session_key ctx ≡ ok k
      → ((put s ctx now n).0 ≡ ok tt)
        × ((j : Text) → nonce_of (put s ctx now n).1 j ≡ map_after_put s.ttl k now n (nonce_of s) j)
        × ((get_and_remove s ctx).0 ≡ answer_of (nonce_of s k))
        × ((j : Text) → nonce_of (get_and_remove s ctx).1 j ≡ map_after_remove k (nonce_of s) j)
  unfolding put get_and_remove
  refines_map k now n h e = (
    rw e,
    λ j. rw e (simp (lookup-insert, lookup-delete_if _ j s.entries h)),
    ground arith,
    λ j. ground (arith, lookup-delete k j s.entries, text_eq_iff k j),
  )

  -- Without a session both methods fail with the error of the session key and change nothing.
  pub no_session_lem :
      (now : Time) (n : ChallengeNonce) (f : GoError)
      → s.session_key ctx ≡ err f
      → (put s ctx now n ≡ (err f, s)) × (get_and_remove s ctx ≡ (err f, s))
  unfolding put get_and_remove
  no_session_lem now n f e = (rw e, rw e)

  pub session_key-put :
      (now : Time) (n : ChallengeNonce) → (put s ctx now n).1.session_key ≡ s.session_key
  unfolding put
  session_key-put now n = elim (Result-cases (s.session_key ctx)) [
    | inl (k, e) ↦ rw e
    | inr (f, e) ↦ rw e
  ]

  pub session_key-get : (get_and_remove s ctx).1.session_key ≡ s.session_key
  unfolding get_and_remove
  session_key-get = ground arith
