-- ===== src/Certificate/Checks.antt =====
-- certificate/checks.go: validity period, key usage, extended key usage, disallowed policies.
pub mod Laws
use go_web_eid.Common.{
  ℕ, Bool, true, false, ◌||◌, not, List, [], ◌∷◌, ◌==◌, if◌then◌else◌, is_empty,
}
use go_web_eid.Go.Time.{Time, before, after}
use go_web_eid.Exceptions.{
  GoError, Result, ok, err, wrap, ◌>>=◌, err_certificate_not_yet_valid, err_certificate_expired,
  err_user_certificate_wrong_purpose, err_signing_certificate_invalid,
  err_certificate_disallowed_policy,
}
use go_web_eid.Certificate.X509.{
  Oid, oid_eq, Extension, Certificate, X509, has_bit, digital_signature, content_commitment,
  ext_any, ext_client_auth,
}

abbrev pub oid_certificate_policies : Oid
oid_certificate_policies = 2 ∷ 5 ∷ 29 ∷ 32 ∷ []

abbrev pub default_disallowed_policies : List Oid
default_disallowed_policies =
    (1 ∷ 3 ∷ 6 ∷ 1 ∷ 4 ∷ 1 ∷ 10015 ∷ 1 ∷ 3 ∷ [])
    ∷ (1 ∷ 3 ∷ 6 ∷ 1 ∷ 4 ∷ 1 ∷ 10015 ∷ 11 ∷ 1 ∷ [])
    ∷ []

-- CheckValidity
unfoldable pub check_validity : Certificate → Time → Result (Unit {0})
check_validity cert now =
    if before now cert.not_before
    then err err_certificate_not_yet_valid
    else if after now cert.not_after
    then err err_certificate_expired
    else ok tt

-- The loop of hasExtKeyUsage.
pub any_ext_key_usage : List ℕ → ℕ → Bool
any_ext_key_usage [] want = false
any_ext_key_usage (eku ∷ ekus) want = (eku == want || eku == ext_any) || any_ext_key_usage ekus want

-- hasExtKeyUsage
unfoldable pub has_ext_key_usage : Certificate → ℕ → Bool
unfolding any_ext_key_usage
has_ext_key_usage cert want = any_ext_key_usage cert.ext_key_usage want

-- CheckKeyUsageForAuthentication
unfoldable pub check_key_usage_for_authentication : Certificate → Result (Unit {0})
check_key_usage_for_authentication cert =
    if not (has_bit cert.key_usage digital_signature)
    then err err_user_certificate_wrong_purpose
    else if not (has_ext_key_usage cert ext_client_auth)
    then err err_user_certificate_wrong_purpose
    else ok tt

-- CheckKeyUsageForSigning
unfoldable pub check_key_usage_for_signing : Certificate → Result (Unit {0})
check_key_usage_for_signing cert =
    if not (has_bit cert.key_usage content_commitment)
    then err err_signing_certificate_invalid
    else ok tt

-- Is an identifier in a list? The inner loops over policies, by ObjectIdentifier.Equal.
unfoldable pub contains_oid : Oid → List Oid → Bool
contains_oid o [] = false
contains_oid o (p ∷ ps) = oid_eq o p || contains_oid o ps

-- Does one identifier stand in both lists? The two nested loops.
unfoldable pub any_shared : List Oid → List Oid → Bool
unfolding contains_oid
any_shared [] bad = false
any_shared (p ∷ ps) bad = contains_oid p bad || any_shared ps bad

module _ (x : X509) where
  -- extractPolicies: the first Certificate Policies extension decides.
  pub extract_policies_from : List Extension → Result (List Oid)
  extract_policies_from [] = ok []
  extract_policies_from (ext ∷ exts) =
      let rest = extract_policies_from exts in
      if not (oid_eq ext.id oid_certificate_policies) then rest else x.unmarshal_policies ext.value

  unfoldable pub extract_policies : Certificate → Result (List Oid)
  unfolding extract_policies_from
  extract_policies cert = extract_policies_from cert.extensions

  abbrev disallow : List Oid → Result (List Oid) → Result (Unit {0})
  disallow bad (err e) = err (wrap err_certificate_disallowed_policy e)
  disallow bad (ok policies) =
      if any_shared policies bad then err err_certificate_disallowed_policy else ok tt

  -- CheckDisallowedPolicies
  unfoldable pub check_disallowed_policies : Certificate → List Oid → Result (Unit {0})
  check_disallowed_policies cert disallowed =
      if is_empty disallowed then ok tt else disallow disallowed (extract_policies cert)
