-- ===== src/Certificate/Trust/Laws.antt =====
-- The trust store: its two halves agree, a reload replaces both or nothing, no reload empties it,
-- and what Verify and IssuerOf answer.
use go_web_eid.Common.{
  ℕ, false, ◌≡◌, ◌≢◌, refl, ◌∙◌, ◌↔◌, ◌⊎◌, inl, inr, none, some, List, [], ◌∷◌, ◌++◌, append_assoc,
  append-nil, sym, arith, All, Any, is_empty, if◌then◌else◌,
}
use go_web_eid.Go.Time.{Time}
use go_web_eid.Exceptions.{GoError, ok, err, is_ok, Result-cases, wrap, err_certificate_not_trusted}
use go_web_eid.Certificate.X509.{Certificate, Pool, X509, NeedsRoots, VerifyOptions, ext_any}
use go_web_eid.Certificate.Trust.{
  TrustSnapshot, TrustStore, fill_pool, new_trust_snapshot, new_trust_store,
  new_runtime_trust_store, reload, first_issuer, issuer_of, verify,
}

fill_pool-eq : (pool : Pool) (cs : List Certificate) → fill_pool pool cs ≡ pool ++ cs
unfolding fill_pool
fill_pool-eq pool [] = sym (append-nil pool)
fill_pool-eq pool (c ∷ cs) = fill_pool-eq (pool ++ c ∷ []) cs ∙ append_assoc pool (c ∷ []) cs

-- The pool holds the very certificates of the list.
abbrev pub IsConsistent : TrustSnapshot → Type 0
IsConsistent s = s.pool ≡ s.intermediates

pub new_trust_snapshot-IsConsistent : (cs : List Certificate) → IsConsistent (new_trust_snapshot cs)
unfolding new_trust_snapshot
new_trust_snapshot-IsConsistent cs = fill_pool-eq [] cs

-- Stores that calls of Reload, failing ones included, lead to.
pub data Reloads (ts : TrustStore) : TrustStore → Type 0 where
  start : Reloads ts ts
  again : {us : TrustStore} (cs : List Certificate) → Reloads ts us → Reloads ts (reload us cs).1

abbrev pub IsFilled : TrustStore → Type 0
IsFilled ts = IsConsistent ts.snap × (ts.snap.intermediates ≢ [])

reload-IsFilled :
    (ts : TrustStore) (cs : List Certificate) → IsFilled ts → IsFilled (reload ts cs).1
unfolding reload new_trust_snapshot
reload-IsFilled ts [] h = h
reload-IsFilled ts (c ∷ cs) h = (new_trust_snapshot-IsConsistent (c ∷ cs), cc)

-- A store that was built from certificates keeps its list and its pool in agreement and is never
-- empty, whatever calls of Reload follow.
pub new_trust_store-IsFilled :
    (address : ℕ) (cs : List Certificate) (ts us : TrustStore)
    → new_trust_store address cs ≡ ok ts
    → Reloads ts us
    → IsFilled us
unfolding new_trust_store new_trust_snapshot
new_trust_store-IsFilled a [] ts us e start = cc
new_trust_store-IsFilled a (c ∷ cs) ts us e start = ground (arith, fill_pool-eq [] (c ∷ cs))
new_trust_store-IsFilled a cs ts us e (again ds r) =
    reload-IsFilled _ ds (new_trust_store-IsFilled a cs ts _ e r)

-- A reload either is refused, for want of certificates, and changes nothing, or replaces the whole
-- set, the list and the pool, by the certificates given.
pub reload_lem :
    (ts : TrustStore) (cs : List Certificate)
    → ((cs ≡ []) × ((reload ts cs).1 ≡ ts) × (is_ok (reload ts cs).0 ≡ false))
      ⊎ ((cs ≢ [])
          × ((reload ts cs).0 ≡ ok tt)
          × ((reload ts cs).1.snap.intermediates ≡ cs)
          × ((reload ts cs).1.snap.pool ≡ cs))
unfolding reload new_trust_snapshot
reload_lem ts [] = inl (refl, refl, refl)
reload_lem ts (c ∷ cs) = inr (cc, refl, refl, fill_pool-eq [] (c ∷ cs))

-- On a runtime store that no reload has filled every verification fails with "not trusted",
-- whatever the certificate, the time and the key usages, provided that no chain can be built to an
-- empty pool.
verify_new_runtime :
    (x : X509) (address : ℕ) (cert : Certificate) (now : Time) (usages : List ℕ)
    → NeedsRoots x
    → (e : GoError) × (verify x (new_runtime_trust_store address) cert now usages
        ≡ err (wrap err_certificate_not_trusted e))
unfolding verify new_runtime_trust_store new_trust_snapshot fill_pool
verify_new_runtime x address cert now usages h = elim (Result-cases (x.verify cert options)) [
  | inl (u, e) ↦ absurd (h cert options refl e)
  | inr (f, e) ↦ (f, rw e)
]
  where
    options : VerifyOptions
    options = record {
      roots = [];
      intermediates = [];
      current_time = now;
      key_usages = if is_empty usages then ext_any ∷ [] else usages;
    }

module _ (x : X509) (cert : Certificate) where
  first_issuer_sound :
      (cas : List Certificate) (ca : Certificate)
      → first_issuer x cert cas ≡ some ca
      → (x.check_signature_from cert ca ≡ ok tt) × Any (λ c. c ≡ ca) cas
  unfolding first_issuer
  first_issuer_sound [] ca h = cc
  first_issuer_sound (c ∷ cs) ca h = elim (Result-cases (x.check_signature_from cert c)) [
    | inl (u, e) ↦ ground (arith, first_issuer_sound cs ca)
    | inr (f, e) ↦ ground (arith, first_issuer_sound cs ca)
  ]

  first_issuer-eq-none_iff :
      (cas : List Certificate)
      → (first_issuer x cert cas ≡ none) ↔ All (λ c. x.check_signature_from cert c ≢ ok tt) cas
  unfolding first_issuer
  first_issuer-eq-none_iff [] = (λ h. tt, λ h. refl)
  first_issuer-eq-none_iff (c ∷ cs) = ground (arith, first_issuer-eq-none_iff cs)

-- IssuerOf answers the first trusted certificate whose key signed the given one, and nothing
-- exactly if there is none.
issuer_of_lem :
    (x : X509) (ts : TrustStore) (cert : Certificate)
    → ((ca : Certificate)
        → issuer_of x ts cert ≡ some ca
        → (x.check_signature_from cert ca ≡ ok tt) × Any (λ c. c ≡ ca) ts.snap.intermediates)
      × ((issuer_of x ts cert ≡ none)
          ↔ All (λ c. x.check_signature_from cert c ≢ ok tt) ts.snap.intermediates)
unfolding issuer_of
issuer_of_lem x ts cert = (
  λ ca h. first_issuer_sound x cert ts.snap.intermediates ca h,
  first_issuer-eq-none_iff x cert ts.snap.intermediates,
)
