-- ===== src/Handler/Build/Laws.antt =====
-- What New has put together.
use go_web_eid.Common.{
  ◌≡◌, ◌≢◌, refl, sym, ap, subst, ◌∙◌, ◌↔◌, ◌⊎◌, inl, inr, Bool, true, false, Option, none, some,
  List, [], ◌∷◌, arith, if◌then◌else◌,
}
use go_web_eid.Exceptions.{GoError, Result, ok, err, >>=-eq-ok}
use go_web_eid.Platform.{Platform}
use go_web_eid.Certificate.X509.{Certificate}
use go_web_eid.Certificate.Policy.{parse_oids}
use go_web_eid.Certificate.Trust.{
  TrustStore, new_runtime_trust_store, reload, new_trust_snapshot, fill_pool,
  err_no_certificates_found,
}
use go_web_eid.Certificate.Trust.Laws.{new_trust_snapshot-IsConsistent}
use go_web_eid.Nonce.Store.{ChallengeNonceStore}
use go_web_eid.Nonce.Generator.{
  Random, Generator, min_nonce_bytes, with_nonce_ttl, with_challenge_nonce_store, new_builder,
}
use go_web_eid.Nonce.Generator
use go_web_eid.Ocsp.Options.{Transport}
use go_web_eid.Handler.Configuration.{Configuration}
use go_web_eid.Handler.Session.{Context}
use go_web_eid.Handler.Settings.{
  Nonces, Settings, NewOption, nonce_store, default_settings, apply_options,
}
use go_web_eid.Handler.Trust.{Os, load_trusted_cas, empty_trust_source, initial_trust}
use go_web_eid.Ocsp.Options.{Checker}
use go_web_eid.Signing.Signer.Laws.{new_signer_iff}
use go_web_eid.Handler.Build.{Handler, build_validator, new_from, new}
use go_web_eid.Handler.Build.Shares.{validator_lem}

filled : (c : Certificate) (cs : List Certificate) → (c ∷ cs) ≢ []
filled c cs e = cc

-- A trusted set to start with: the certificates that were loaded, which are some, or the empty set
-- of a runtime store, where one was asked for and loading failed for want of a source.
abbrev pub Started : (GoError → Type 0) → Bool → Result (List Certificate) → TrustStore → Type 0
Started IsEmptySource runtime r ts =
    ((cas : List Certificate) × (r ≡ ok cas)
      × (cas ≢ [])
      × (ts.snap.intermediates ≡ cas)
      × (ts.snap.pool ≡ cas))
    ⊎ ((e : GoError) × (r ≡ err e)
        × (runtime ≡ true)
        × IsEmptySource e
        × (ts.snap.intermediates ≡ [])
        × (ts.snap.pool ≡ []))

initial_trust_lem :
    (is_empty_source : GoError → Bool) (runtime : Bool) (r : Result (List Certificate))
    (ts : TrustStore)
    → initial_trust is_empty_source runtime r ≡ ok ts
    → Started (λ e. is_empty_source e ≡ true) runtime r ts
unfolding reload new_trust_snapshot new_runtime_trust_store fill_pool
initial_trust_lem is_empty_source runtime (err f) ts h =
    inr (f, refl, ground arith, ground arith, ground arith, ground arith)
initial_trust_lem is_empty_source runtime (ok []) ts h = absurd (ground arith)
initial_trust_lem is_empty_source runtime (ok (c ∷ cas)) ts h =
    let same : record { address = 0; snap = new_trust_snapshot (c ∷ cas) } ≡ ts = ground arith in
    inl (
      c ∷ cas,
      refl,
      filled c cas,
      ap (λ t. t.snap.intermediates) (sym same),
      ap (λ t. t.snap.pool) (sym same) ∙ new_trust_snapshot-IsConsistent (c ∷ cas),
    )

module _ {S : Type 0} (ops : ChallengeNonceStore Context S) (random : Random) where
  generator_lem :
      (cfg : Configuration) (gen : Generator Context (Nonces S))
      → Generator.build (
          with_nonce_ttl cfg.nonce_ttl
            (with_challenge_nonce_store (some (nonce_store ops)) (new_builder random)))
        ≡ ok gen
      → (gen.store ≡ nonce_store ops) × (gen.nonce_size ≡ min_nonce_bytes)
  unfolding Generator.build with_nonce_ttl with_challenge_nonce_store new_builder
  generator_lem cfg gen h = ground arith

checker_lem :
    (x : Bool) (c : Checker) (o : Option Checker)
    → o ≡ (if x then some c else none)
    → (o ≡ none) ↔ (x ≡ false)
checker_lem x c o h = ground arith

module _ (p : Platform) (os : Os) where
  Started-empty_trust_source :
      (runtime : Bool) (r : Result (List Certificate)) (ts : TrustStore)
      → Started (λ e. empty_trust_source p.x509 os e ≡ true) runtime r ts
      → Started
          (λ e. (os.is e os.err_not_exist ≡ true) ⊎ (os.is e err_no_certificates_found ≡ true))
          runtime
          r
          ts
  unfolding empty_trust_source
  Started-empty_trust_source runtime r ts (inl loaded) = inl loaded
  Started-empty_trust_source runtime r ts (inr (e, failed, chosen, missing, nothing, empty)) =
      inr (e, failed, chosen, ground arith, nothing, empty)

module _ (p : Platform) (os : Os) (transport : Transport) {Private Public S : Type 0}
    (ops : ChallengeNonceStore Context S) (random : Random) where
  -- What holds of a handler that was built from these settings.
  pub record IsBuilt (cfg : Configuration) (settings : Settings Private Public S)
      (h : Handler Private Public S) : Type 0 where
    pub config : h.config ≡ cfg
    pub settings_kept : h.settings ≡ settings
    pub store : h.generator.store ≡ nonce_store ops
    pub nonce_size : h.generator.nonce_size ≡ min_nonce_bytes
    pub validator_trust : h.validator.trust ≡ h.trust
    pub signer_trust : h.signer.trust ≡ some h.trust
    pub validator_checks : (h.validator.ocsp_checker ≡ none) ↔ (cfg.ocsp_enabled ≡ false)
    pub signer_checks : (h.signer.ocsp_checker ≡ none) ↔ (cfg.ocsp_enabled ≡ false)
    pub trusted :
        Started
          (λ e. (os.is e os.err_not_exist ≡ true) ⊎ (os.is e err_no_certificates_found ≡ true))
          settings.runtime_trust
          (load_trusted_cas p.x509 os cfg.trusted_ca_certs_path)
          h.trust

  -- A handler that New answers has the configuration and the settings that the options made, a
  -- generator of 32 bytes over its own store, a validator and a signer that hold its one trust
  -- store, and check revocation exactly if it is enabled; the trusted set is what was loaded, which
  -- is not empty, or else it is empty, runtime trust was chosen, and loading failed because the
  -- path does not exist or the directory has no certificates.
  pub new-IsBuilt :
      (cfg : Configuration) (opts : List (NewOption Private Public S))
      (h : Handler Private Public S)
      → new p os transport ops random (some cfg) opts ≡ ok h
      → IsBuilt cfg (apply_options opts (default_settings cfg)) h
  unfolding new new_from
  new-IsBuilt cfg opts h done =
      let set = apply_options opts (default_settings cfg) in
      let (ts, started, h1) =
        >>=-eq-ok
          (initial_trust (empty_trust_source p.x509 os) set.runtime_trust
            (load_trusted_cas p.x509 os cfg.trusted_ca_certs_path))
          _ done in
      let (v, validating, h2) = >>=-eq-ok (build_validator p transport cfg ts) _ h1 in
      let (oids, accepted, h3) =
        >>=-eq-ok (parse_oids p.unicode cfg.signing_accepted_policy_oids) _ h2 in
      let (signer, signing, h4) = >>=-eq-ok _ _ h3 in
      let (gen, generating, h5) = >>=-eq-ok _ _ h4 in
      let same : record {
        config = cfg;
        settings = set;
        trust = ts;
        validator = v;
        signer = signer;
        generator = gen;
      }
          ≡ h =
        ground arith in
      let (store, size) = generator_lem ops random cfg gen generating in
      let (shared, checks) = validator_lem p transport cfg ts v validating in
      let (preferred, known, signs) = (new_signer_iff _ signer).0 signing in
      subst (IsBuilt cfg set) same (record {
        config = refl;
        settings_kept = refl;
        store = store;
        nonce_size = size;
        validator_trust = shared;
        signer_trust = ap (λ s. s.trust) signs;
        validator_checks = checks;
        signer_checks =
            checker_lem cfg.ocsp_enabled _ signer.ocsp_checker (ap (λ s. s.ocsp_checker) signs);
        trusted =
            Started-empty_trust_source p os set.runtime_trust
              (load_trusted_cas p.x509 os cfg.trusted_ca_certs_path) ts
              (initial_trust_lem (empty_trust_source p.x509 os) set.runtime_trust
                (load_trusted_cas p.x509 os cfg.trusted_ca_certs_path) ts started);
      })
