-- ===== src/Certificate/Checks/Laws.antt =====
-- What the checks of certificate/checks.go establish, each against a description of its own.
use go_web_eid.Common.{ℕ, true, ◌≡◌, ◌↔◌, ◌⊎◌, inl, inr, List, [], ◌∷◌, arith, ◌≤ℤ◌, ◌<ℤ◌, Any}
use go_web_eid.Go.Text.{text_eq_iff}
use go_web_eid.Go.Time.{Time, before, after}
use go_web_eid.Exceptions.{ok, err, Result-cases, err_certificate_not_yet_valid}
use go_web_eid.Certificate.X509.{
  Oid, Certificate, X509, has_bit, digital_signature, ext_any, ext_client_auth,
}
use go_web_eid.Certificate.Checks.{
  check_validity, any_ext_key_usage, has_ext_key_usage, check_key_usage_for_authentication,
  contains_oid, any_shared, extract_policies, check_disallowed_policies,
}

-- A certificate passes exactly within its validity period, both ends included; the error is "not
-- yet valid" exactly before the period.
check_validity_iff :
    (cert : Certificate) (now : Time)
    → ((check_validity cert now ≡ ok tt) ↔ ((cert.not_before ≤ℤ now) × (now ≤ℤ cert.not_after)))
      × ((check_validity cert now ≡ err err_certificate_not_yet_valid) ↔ (now <ℤ cert.not_before))
unfolding check_validity before after
check_validity_iff cert now = ground arith

any_ext_key_usage_iff :
    (ekus : List ℕ) (want : ℕ)
    → (any_ext_key_usage ekus want ≡ true) ↔ Any (λ eku. (eku ≡ want) ⊎ (eku ≡ ext_any)) ekus
unfolding any_ext_key_usage
any_ext_key_usage_iff [] want = (λ h. cc, λ h. elim h [ ])
any_ext_key_usage_iff (eku ∷ ekus) want = ground (arith, any_ext_key_usage_iff ekus want)

-- A certificate is fit for authentication exactly if its key usage has the digital-signature bit
-- and one of its extended key usages is client authentication or any; no extended key usage at all
-- does not pass.
check_key_usage_for_authentication_iff :
    (cert : Certificate)
    → (check_key_usage_for_authentication cert ≡ ok tt) ↔ (
        (has_bit cert.key_usage digital_signature ≡ true)
        × Any (λ eku. (eku ≡ ext_client_auth) ⊎ (eku ≡ ext_any)) cert.ext_key_usage)
unfolding check_key_usage_for_authentication has_ext_key_usage
check_key_usage_for_authentication_iff cert =
    ground (arith, any_ext_key_usage_iff cert.ext_key_usage ext_client_auth)

pub contains_oid_iff : (o : Oid) (ps : List Oid) → (contains_oid o ps ≡ true) ↔ Any (λ p. o ≡ p) ps
unfolding contains_oid
contains_oid_iff o [] = (λ h. cc, λ h. elim h [ ])
contains_oid_iff o (p ∷ ps) = ground (arith, text_eq_iff o p, contains_oid_iff o ps)

pub any_shared_iff :
    (ps bad : List Oid) → (any_shared ps bad ≡ true) ↔ Any (λ p. Any (λ b. p ≡ b) bad) ps
unfolding any_shared
any_shared_iff [] bad = (λ h. cc, λ h. elim h [ ])
any_shared_iff (p ∷ ps) bad = ground (arith, contains_oid_iff p bad, any_shared_iff ps bad)

-- With a list of disallowed policies a certificate passes exactly if its policies can be read and
-- none of them is on the list.
pub check_disallowed_policies_iff :
    (x : X509) (cert : Certificate) (b : Oid) (bs : List Oid)
    → (check_disallowed_policies x cert (b ∷ bs) ≡ ok tt) ↔ (
        (ps : List Oid) × (extract_policies x cert ≡ ok ps)
        × ¬ Any (λ p. Any (λ q. p ≡ q) (b ∷ bs)) ps)
unfolding check_disallowed_policies
check_disallowed_policies_iff x cert b bs = elim (Result-cases (extract_policies x cert)) [
  | inl (ps, e) ↦ (
    λ h. (ps, e, λ shared. ground (arith, any_shared_iff ps (b ∷ bs))),
    λ (qs, f, apart). ground (arith, any_shared_iff ps (b ∷ bs)),
  )
  | inr (e, failed) ↦ (λ h. ground arith, λ (qs, f, apart). ground arith)
]
