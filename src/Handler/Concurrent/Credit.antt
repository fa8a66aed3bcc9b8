-- ===== src/Handler/Concurrent/Credit.antt =====
-- Counting the nonces of one session: a task has a credit, which grows when it takes a nonce of the
-- session out of the store, is spent when it puts one in, and bounds what its answer counts for.
use go_web_eid.Common.{ℕ, zero, suc, ◌+◌, ◌≤◌, ◌≡◌, refl, ap, ◌∙◌, List, [], ◌∷◌, arith}
use go_web_eid.Go.Text.{Text}
use go_web_eid.Exceptions.{Result}
use go_web_eid.Certificate.Trust.{TrustStore, reload}
use go_web_eid.Nonce.Challenge.{ChallengeNonce}
use go_web_eid.Nonce.Memory.{InMemoryStore, put, get_and_remove}
use go_web_eid.Nonce.Memory.Laws.{IsValid, nonce_of}
use go_web_eid.Nonce.Memory.Traces.{gets, step, step-IsValid, session_key-step}
use go_web_eid.Nonce.Memory.Traces
use go_web_eid.Nonce.Memory.Counting.{held, weight, gain, held-put, held-taken}
use go_web_eid.Nonce.Store.{ChallengeNonceStore}
use go_web_eid.Handler.Session.{Context, session_key}
use go_web_eid.Handler.Settings.{in_process}
use go_web_eid.Handler.Build.{Handler}
use go_web_eid.Handler.Concurrent.Task.{
  Task, done, loads, swaps, puts, takes, advance, advance_at, interleave,
}

abbrev pub sum : List ℕ → ℕ
sum [] = 0
sum (c ∷ cs) = c + sum cs

module _ (k : Text) {Private Public S : Type 0} where
  -- The session's nonce in the store and the credits `c` come to `b` at most.
  pub record Holds (b c : ℕ) (h : Handler Private Public S) : Type 0 where
    pub store : InMemoryStore Context
    pub nonces : h.settings.nonces ≡ in_process store
    pub valid : IsValid store
    pub keyed : store.session_key ≡ session_key
    pub bound : held (nonce_of store k) + c ≤ b

  Holds-of_le : {b c d : ℕ} {h : Handler Private Public S} → d ≡ c → Holds b c h → Holds b d h
  Holds-of_le same s = record {
    store = s.store;
    nonces = s.nonces;
    valid = s.valid;
    keyed = s.keyed;
    bound = rw (same) s.bound;
  }

module _ {R : Type 0} (k : Text) where
  -- With that credit the task can pay for its answer, which counts for `win`.
  abbrev pub Pays : (win : R → ℕ) → Task R → ℕ → Type 0
  Pays win (done r) c = win r ≤ c
  Pays win (loads next) c = (ts : TrustStore) → Pays win (next ts) c
  Pays win (swaps cas next) c = (r : Result (Unit {0})) → Pays win (next r) c
  Pays win (puts ctx now n next) c =
      (d : ℕ) × (c ≡ d + weight k (session_key ctx))
      × ((r : Result (Unit {0})) → Pays win (next r) d)
  Pays win (takes ctx now next) c =
      (r : Result ChallengeNonce) → Pays win (next r) (c + gain (weight k (session_key ctx)) r)

  abbrev pub AllPay : List (R → ℕ) → List (Task R) → List ℕ → Type 0
  AllPay [] [] [] = Unit {0}
  AllPay (win ∷ wins) (t ∷ ts) (c ∷ cs) = Pays win t c × AllPay wins ts cs
  AllPay _ _ _ = ⊥

  module _ {Private Public S : Type 0} where
    module _ (ops : ChallengeNonceStore Context S) where
      advance-Pays :
          (win : R → ℕ) (h : Handler Private Public S) (t : Task R) (b c rest : ℕ)
          → Holds k b (c + rest) h
          → Pays win t c
          → (d : ℕ) × Pays win (advance ops h t).0 d × Holds k b (d + rest) (advance ops h t).1
      unfolding advance step
      advance-Pays win h (done r) b c rest s pays = (c, pays, s)
      advance-Pays win h (loads next) b c rest s pays = (c, pays h.trust, s)
      advance-Pays win h (swaps cas next) b c rest s pays = (
        c,
        pays (reload h.trust cas).0,
        record {
          store = s.store;
          nonces = s.nonces;
          valid = s.valid;
          keyed = s.keyed;
          bound = s.bound;
        },
      )
      advance-Pays win h (puts ctx now n next) b c rest s (d, spent, pays) =
          let same : weight k (s.store.session_key ctx) ≡ weight k (session_key ctx) =
            ap (λ f. weight k (f ctx)) s.keyed in
          rw (s.nonces) (
            d,
            pays (put s.store ctx now n).0,
            record {
              store = (put s.store ctx now n).1;
              nonces = refl;
              valid = step-IsValid s.store (Traces.puts ctx now n) s.valid;
              keyed = session_key-step s.store (Traces.puts ctx now n) ∙ s.keyed;
              bound = omega (arith, held-put s.store k s.valid ctx now n, s.bound, spent, same);
            },
          )
      advance-Pays win h (takes ctx now next) b c rest s pays =
          let answer = (get_and_remove s.store ctx).0 in
          let same : gain (weight k (s.store.session_key ctx)) answer
              ≡ gain (weight k (session_key ctx)) answer =
            ap (λ f. gain (weight k (f ctx)) answer) s.keyed in
          rw (s.nonces) (
            c + gain (weight k (session_key ctx)) answer,
            pays answer,
            record {
              store = (get_and_remove s.store ctx).1;
              nonces = refl;
              valid = step-IsValid s.store (gets ctx) s.valid;
              keyed = session_key-step s.store (gets ctx) ∙ s.keyed;
              bound = omega (arith, held-taken s.store k s.valid ctx, s.bound, same);
            },
          )

      advance_at-AllPay :
          (i : ℕ) (wins : List (R → ℕ)) (ts : List (Task R)) (cs : List ℕ)
          (h : Handler Private Public S) (b rest : ℕ)
          → Holds k b (sum cs + rest) h
          → AllPay wins ts cs
          → (ds : List ℕ) × AllPay wins (advance_at ops i (ts, h)).0 ds
            × Holds k b (sum ds + rest) (advance_at ops i (ts, h)).1
      unfolding advance_at
      advance_at-AllPay i [] [] [] h b rest s pay = ([], tt, s)
      advance_at-AllPay zero (win ∷ wins) (t ∷ ts) (c ∷ cs) h b rest s pay =
          let (d, pays, after) =
            advance-Pays win h t b c (sum cs + rest) (Holds-of_le k (omega arith) s) pay.0 in
          (d ∷ cs, (pays, pay.1), Holds-of_le k (omega arith) after)
      advance_at-AllPay (suc i) (win ∷ wins) (t ∷ ts) (c ∷ cs) h b rest s pay =
          let (ds, pays, after) =
            advance_at-AllPay i wins ts cs h b (c + rest) (Holds-of_le k (omega arith) s) pay.1 in
          (c ∷ ds, (pay.0, pays), Holds-of_le k (omega arith) after)
      advance_at-AllPay i [] [] (c ∷ cs) h b rest s pay = elim pay [ ]
      advance_at-AllPay i [] (t ∷ ts) cs h b rest s pay = elim pay [ ]
      advance_at-AllPay i (win ∷ wins) [] cs h b rest s pay = elim pay [ ]
      advance_at-AllPay i (win ∷ wins) (t ∷ ts) [] h b rest s pay = elim pay [ ]

      -- No schedule makes credit.
      pub interleave-AllPay :
          (is : List ℕ) (wins : List (R → ℕ)) (ts : List (Task R)) (cs : List ℕ)
          (h : Handler Private Public S) (b : ℕ)
          → Holds k b (sum cs) h
          → AllPay wins ts cs
          → (ds : List ℕ) × AllPay wins (interleave ops is (ts, h)).0 ds × (sum ds ≤ b)
      unfolding interleave
      interleave-AllPay [] wins ts cs h b s pay = (cs, pay, omega (arith, s.bound))
      interleave-AllPay (i ∷ is) wins ts cs h b s pay =
          let (ds, pays, after) =
            advance_at-AllPay i wins ts cs h b 0 (Holds-of_le k (omega arith) s) pay in
          interleave-AllPay is wins (advance_at ops i (ts, h)).0 ds (advance_at ops i (ts, h)).1 b
            (Holds-of_le k (omega arith) after) pays
