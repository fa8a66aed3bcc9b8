-- ===== src/Handler/Build/Reload.antt =====
-- What ReloadTrust does to a handler that New has built.
use go_web_eid.Common.{
  ◌≡◌, ◌≢◌, refl, sym, ap, ◌∙◌, ◌⊎◌, inl, inr, some, List, [], ◌∷◌, arith, length,
}
use go_web_eid.Exceptions.{GoError, ok, err, Result-cases}
use go_web_eid.Platform.{Platform}
use go_web_eid.Certificate.X509.{Certificate}
use go_web_eid.Certificate.Trust.{TrustStore, reload}
use go_web_eid.Certificate.Trust.Laws.{reload_lem}
use go_web_eid.Nonce.Store.{ChallengeNonceStore}
use go_web_eid.Nonce.Generator.{Random}
use go_web_eid.Ocsp.Options.{Transport}
use go_web_eid.Handler.Configuration.{Configuration}
use go_web_eid.Handler.Session.{Context}
use go_web_eid.Handler.Settings.{NewOption}
use go_web_eid.Handler.Trust.{Os, load_trusted_cas}
use go_web_eid.Handler.Build.{Handler, new, reload_trust, validator_of, signer_of}
use go_web_eid.Handler.Build.Laws.{new-IsBuilt}

reload-address : (ts : TrustStore) (cas : List Certificate) → (reload ts cas).1.address ≡ ts.address
unfolding reload
reload-address ts [] = refl
reload-address ts (c ∷ cas) = refl

module _ {Private Public S : Type 0} where
  -- The validator and the signer point at the handler's trust store.
  abbrev IsShared : Handler Private Public S → Type 0
  IsShared h =
      (h.validator.trust.address ≡ h.trust.address)
      × ((ts : TrustStore) × (h.signer.trust ≡ some ts) × (ts.address ≡ h.trust.address))

  IsShared-trust :
      (h : Handler Private Public S) (t : TrustStore)
      → t.address ≡ h.trust.address
      → IsShared h
      → IsShared (record h { trust = t })
  IsShared-trust h t kept (checks, (ts, signs, same)) =
      (checks ∙ sym kept, (ts, signs, same ∙ sym kept))

  validator_of-trust :
      (h : Handler Private Public S) → IsShared h → (validator_of h).trust ≡ h.trust
  unfolding validator_of
  validator_of-trust h (same, s) = ground arith

  signer_of-trust : (h : Handler Private Public S) → IsShared h → (signer_of h).trust ≡ some h.trust
  unfolding signer_of
  signer_of-trust h (s, (ts, held, same)) = rw (held) (ground arith)

module _ (p : Platform) {Private Public S : Type 0} where
  reload_trust-IsShared :
      (os : Os) (h : Handler Private Public S) → IsShared h → IsShared (reload_trust p os h).1
  unfolding reload_trust
  reload_trust-IsShared os h shared =
      elim (Result-cases (load_trusted_cas p.x509 os h.config.trusted_ca_certs_path)) [
        | inr (f, failed) ↦ rw (failed) shared
        | inl (cas, loaded) ↦
            let kept =
              IsShared-trust h (reload h.trust cas).1 (reload-address h.trust cas) shared in
            elim (Result-cases (reload h.trust cas).0) [
              | inl (u, done) ↦ rw (loaded, done) kept
              | inr (f, failed) ↦ rw (loaded, failed) kept
            ]
      ]

  -- The handler after calls of ReloadTrust, each at another state of the operating system.
  abbrev pub reload_all : Handler Private Public S → List Os → Handler Private Public S
  reload_all h [] = h
  reload_all h (os ∷ later) = reload_all (reload_trust p os h).1 later

  reload_all-IsShared :
      (h : Handler Private Public S) (calls : List Os) → IsShared h → IsShared (reload_all h calls)
  reload_all-IsShared h [] shared = shared
  reload_all-IsShared h (os ∷ later) shared =
      reload_all-IsShared (reload_trust p os h).1 later (reload_trust-IsShared os h shared)

  -- The handler as it was, with an error, or one that checks against the certificates that were
  -- loaded, with their number.
  abbrev pub Reloaded : Os → Handler Private Public S → Type 0
  Reloaded os h =
      ((f : GoError) × ((reload_trust p os h).0 ≡ err f) × ((reload_trust p os h).1 ≡ h))
      ⊎ ((cas : List Certificate) × (load_trusted_cas p.x509 os h.config.trusted_ca_certs_path
            ≡ ok cas)
          × (cas ≢ [])
          × ((reload_trust p os h).0 ≡ ok (length cas))
          × ((validator_of (reload_trust p os h).1).trust.snap.intermediates ≡ cas)
          × ((validator_of (reload_trust p os h).1).trust.snap.pool ≡ cas)
          × ((signer_of (reload_trust p os h).1).trust
              ≡ some (validator_of (reload_trust p os h).1).trust))

  shared-Reloaded : (os : Os) (h : Handler Private Public S) → IsShared h → Reloaded os h
  unfolding reload_trust
  shared-Reloaded os h shared =
      elim (Result-cases (load_trusted_cas p.x509 os h.config.trusted_ca_certs_path)) [
        | inr (f, failed) ↦ inl (f, rw (failed) refl, rw (failed) refl)
        | inl (cas, loaded) ↦ elim (reload_lem h.trust cas) [
          | inl (nothing, same, refused) ↦ elim (Result-cases (reload h.trust cas).0) [
            | inl (u, done) ↦ absurd (ground (arith, refused))
            | inr (f, failed) ↦ inl (
              f,
              rw (loaded, failed) refl,
              rw (loaded, failed) (ap (λ t. record h { trust = t }) same),
            )
          ]
          | inr (some_cas, done, listed, pooled) ↦
              let after = reload_trust-IsShared os h shared in
              let stored : (reload_trust p os h).1.trust ≡ (reload h.trust cas).1 =
                rw (loaded, done) refl in
              let checks = validator_of-trust (reload_trust p os h).1 after in
              inr (
                cas,
                loaded,
                some_cas,
                rw (loaded, done) refl,
                ap (λ ts. ts.snap.intermediates) (checks ∙ stored) ∙ listed,
                ap (λ ts. ts.snap.pool) (checks ∙ stored) ∙ pooled,
                signer_of-trust (reload_trust p os h).1 after ∙ ap some (sym checks),
              )
        ]
      ]

module _ (p : Platform) (os : Os) (transport : Transport) {Private Public S : Type 0}
    (ops : ChallengeNonceStore Context S) (random : Random) where
  new-IsShared :
      (cfg : Configuration) (opts : List (NewOption Private Public S))
      (h : Handler Private Public S)
      → new p os transport ops random (some cfg) opts ≡ ok h
      → IsShared h
  new-IsShared cfg opts h built =
      let is_built = new-IsBuilt p os transport ops random cfg opts h built in
      (ap (λ ts. ts.address) is_built.validator_trust, (h.trust, is_built.signer_trust, refl))

  -- On a handler that New has built, after any calls of ReloadTrust, a further call either fails and
  -- changes nothing, or it has loaded some certificates, answers their number, and both the
  -- validator and the signer check against exactly them from then on.
  pub reload_trust_lem :
      (cfg : Configuration) (opts : List (NewOption Private Public S))
      (h : Handler Private Public S) (calls : List Os) (last : Os)
      → new p os transport ops random (some cfg) opts ≡ ok h
      → Reloaded p last (reload_all p h calls)
  reload_trust_lem cfg opts h calls last built =
      shared-Reloaded p last (reload_all p h calls)
        (reload_all-IsShared p h calls (new-IsShared cfg opts h built))
