-- ===== src/Certificate/Trust.antt =====
-- certificate/trust.go: the trust store, an atomic pointer to an immutable set of certificate
-- authorities, and the loaders that fill it.
pub mod Laws
use go_web_eid.Common.{Bool, List, [], ◌∷◌, ◌++◌, Option, none, some, if◌then◌else◌, is_empty}
use go_web_eid.Go.Time.{Time}
use go_web_eid.Exceptions.{
  GoError, plain, Result, ok, err, wrap, ◌>>=◌, is_ok, err_certificate_not_trusted,
}
use go_web_eid.Certificate.X509.{Certificate, Pool, X509, VerifyOptions, ext_any}
use go_web_eid.Common.{ℕ}

abbrev pub err_no_certificates_found : GoError
err_no_certificates_found = plain "no certificates found"

-- trustSnapshot
pub record TrustSnapshot : Type 0 where
  pub intermediates : List Certificate
  pub pool : Pool

-- TrustStore: its address, which tells two stores apart, and what its atomic pointer points at.
pub record TrustStore : Type 0 where
  pub address : ℕ
  pub snap : TrustSnapshot

-- The loop of newTrustSnapshot: AddCert for each certificate.
unfoldable pub fill_pool : Pool → List Certificate → Pool
fill_pool pool [] = pool
fill_pool pool (c ∷ cs) = fill_pool (pool ++ c ∷ []) cs

-- newTrustSnapshot
unfoldable pub new_trust_snapshot : List Certificate → TrustSnapshot
unfolding fill_pool
new_trust_snapshot intermediates = record {
  intermediates = intermediates;
  pool = fill_pool [] intermediates;
}

-- NewTrustStore, at the address that it is allocated at.
unfoldable pub new_trust_store : ℕ → List Certificate → Result TrustStore
new_trust_store address intermediates =
    if is_empty intermediates
    then err (plain "at least one trusted CA certificate is required")
    else ok (record { address = address; snap = new_trust_snapshot intermediates })

-- NewRuntimeTrustStore, likewise.
unfoldable pub new_runtime_trust_store : ℕ → TrustStore
new_runtime_trust_store address = record { address = address; snap = new_trust_snapshot [] }

-- Reload: the error, and the store after the call.
unfoldable pub reload : TrustStore → List Certificate → Result (Unit {0}) × TrustStore
reload ts intermediates =
    if is_empty intermediates
    then (err (plain "at least one trusted CA certificate is required"), ts)
    else (ok tt, record ts { snap = new_trust_snapshot intermediates })

-- Intermediates
unfoldable pub intermediates : TrustStore → List Certificate
intermediates ts = ts.snap.intermediates

module _ (x : X509) where
  -- The loop of IssuerOf.
  unfoldable pub first_issuer : Certificate → List Certificate → Option Certificate
  first_issuer cert [] = none
  first_issuer cert (ca ∷ cas) =
      let rest = first_issuer cert cas in
      if is_ok (x.check_signature_from cert ca) then some ca else rest

  -- IssuerOf
  unfoldable pub issuer_of : TrustStore → Certificate → Option Certificate
  unfolding first_issuer
  issuer_of ts cert = first_issuer cert ts.snap.intermediates

  abbrev not_trusted : Result (Unit {0}) → Result (Unit {0})
  not_trusted (ok u) = ok tt
  not_trusted (err e) = err (wrap err_certificate_not_trusted e)

  -- Verify of one snapshot: the pool is loaded once.
  pub verify_in : TrustSnapshot → Certificate → Time → List ℕ → Result (Unit {0})
  verify_in snap cert now key_usages = not_trusted (
      x.verify cert (record {
        roots = snap.pool;
        intermediates = snap.pool;
        current_time = now;
        key_usages = if is_empty key_usages then ext_any ∷ [] else key_usages;
      }))

  -- Verify
  unfoldable pub verify : TrustStore → Certificate → Time → List ℕ → Result (Unit {0})
  unfolding verify_in
  verify ts = verify_in ts.snap

-- A decoded PEM block.
pub record Block : Type 0 where
  pub is_certificate : Bool
  pub bytes : List ℕ

-- encoding/pem and os, as the loaders use them: the blocks of a text in order, whether it has one,
-- the entries of a directory that are no directories, and the content of a file.
pub record Files : Type 0 where
  pub blocks : List ℕ → List Block
  pub entries : List ℕ → Result (List (List ℕ))
  pub read : List ℕ → Result (List ℕ)

module _ (x : X509) where
  -- The loop of LoadCertificatesFromPEM over the blocks; other types are skipped.
  unfoldable pub parse_blocks : List Block → Result (List Certificate)
  parse_blocks [] = ok []
  parse_blocks (b ∷ bs) =
      let rest = parse_blocks bs in
      if b.is_certificate then (do c ← x.parse b.bytes; cs ← rest; ok (c ∷ cs)) else rest

  abbrev some_found : List Certificate → Result (List Certificate)
  some_found [] = err (plain "no certificates found in PEM data")
  some_found (c ∷ cs) = ok (c ∷ cs)

  module _ (fs : Files) where
    -- LoadCertificatesFromPEM of the bytes that were read.
    unfoldable pub load_certificates_from_pem : List ℕ → Result (List Certificate)
    unfolding parse_blocks
    load_certificates_from_pem content = do cs ← parse_blocks (fs.blocks content); some_found cs

    -- LoadCertificatesFromDER
    unfoldable pub load_certificates_from_der : List (List ℕ) → Result (List Certificate)
    load_certificates_from_der [] = ok []
    load_certificates_from_der (path ∷ paths) =
        let rest = load_certificates_from_der paths in
        do der ← fs.read path; c ← x.parse der; cs ← rest; ok (c ∷ cs)

    -- One entry of LoadCertificatesFromDir.
    pub load_entry : List ℕ → Result (List Certificate)
    unfolding load_certificates_from_pem
    load_entry path = do
      content ← fs.read path
      if is_empty (fs.blocks content)
          then (do c ← x.parse content; ok (c ∷ []))
          else load_certificates_from_pem content

    pub load_entries : List (List ℕ) → Result (List Certificate)
    unfolding load_entry
    load_entries [] = ok []
    load_entries (path ∷ paths) =
        let rest = load_entries paths in do cs ← load_entry path; ds ← rest; ok (cs ++ ds)

    abbrev any_found : List Certificate → Result (List Certificate)
    any_found [] = err err_no_certificates_found
    any_found (c ∷ cs) = ok (c ∷ cs)

    -- LoadCertificatesFromDir
    unfoldable pub load_certificates_from_dir : List ℕ → Result (List Certificate)
    unfolding load_entries
    load_certificates_from_dir dir = do
      paths ← fs.entries dir
      cs ← load_entries paths
      any_found cs
