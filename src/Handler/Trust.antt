-- ===== src/Handler/Trust.antt =====
-- azugo/handler.go: loading the trusted certificates, with what it asks of the operating system.
use go_web_eid.Common.{Bool, ◌||◌, ◌&&◌, List, if◌then◌else◌}
use go_web_eid.Go.Text.{Text}
use go_web_eid.Exceptions.{GoError, Result, ok, err, ◌>>=◌}
use go_web_eid.Certificate.X509.{Certificate, X509}
use go_web_eid.Certificate.Trust.{
  Files, TrustStore, err_no_certificates_found, load_certificates_from_pem,
  load_certificates_from_dir, new_runtime_trust_store, reload,
}

-- os.Stat, with whether the path is a directory, reading a file after os.Open, errors.Is, and
-- os.ErrNotExist.
pub record Os : Type 0 where
  pub is_dir : Text → Result Bool
  pub files : Files
  pub is : GoError → GoError → Bool
  pub err_not_exist : GoError

module _ (x : X509) (os : Os) where
  -- loadTrustedCAs
  unfoldable pub load_trusted_cas : Text → Result (List Certificate)
  load_trusted_cas path = do
    dir ← os.is_dir path
    if dir
        then load_certificates_from_dir x os.files path
        else do content ← os.files.read path; load_certificates_from_pem x os.files content

  -- emptyTrustSource
  unfoldable pub empty_trust_source : GoError → Bool
  empty_trust_source e = os.is e os.err_not_exist || os.is e err_no_certificates_found

-- The store after a call of Reload that must not fail.
abbrev pub reloaded : Result (Unit {0}) × TrustStore → Result TrustStore
reloaded (ok _, ts) = ok ts
reloaded (err e, ts) = err e

-- The switch of New over what loading answered; its store is the first one that is allocated.
abbrev pub initial_trust :
    (is_empty_source : GoError → Bool) → Bool → Result (List Certificate) → Result TrustStore
initial_trust is_empty_source runtime_trust (ok cas) =
    reloaded (reload (new_runtime_trust_store 0) cas)
initial_trust is_empty_source runtime_trust (err e) =
    if runtime_trust && is_empty_source e then ok (new_runtime_trust_store 0) else err e
