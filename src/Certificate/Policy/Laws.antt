-- ===== src/Certificate/Policy/Laws.antt =====
-- What the policy gate and the identity binding of certificate/policy.go establish.
use go_web_eid.Common.{
  true, false, ◌≡◌, ◌≢◌, ◌↔◌, ◌⊎◌, inl, inr, Option, none, some, List, [], ◌∷◌, arith, Any,
}
use go_web_eid.Go.Text.{has_prefix, text_eq_iff}
use go_web_eid.Exceptions.{ok, err, Result-cases, err_identity_binding_mismatch}
use go_web_eid.Certificate.X509.{Oid, Certificate, X509}
use go_web_eid.Certificate.Checks.{extract_policies}
use go_web_eid.Certificate.Checks.Laws.{contains_oid_iff}
use go_web_eid.Certificate.Policy.{
  any_accepted, check_accepted_policies, natural_person_id_prefix, check_same_natural_person,
}

any_accepted_iff :
    (accepted present : List Oid)
    → (any_accepted accepted present ≡ true) ↔ Any (λ w. Any (λ h. w ≡ h) present) accepted
unfolding any_accepted
any_accepted_iff [] present = (λ h. cc, λ h. elim h [ ])
any_accepted_iff (w ∷ ws) present =
    ground (arith, contains_oid_iff w present, any_accepted_iff ws present)

-- With a list of accepted policies a certificate passes exactly if its policies can be read and at
-- least one accepted policy is among them.
check_accepted_policies_iff :
    (x : X509) (cert : Certificate) (w : Oid) (ws : List Oid)
    → (check_accepted_policies x cert (w ∷ ws) ≡ ok tt) ↔ (
        (ps : List Oid) × (extract_policies x cert ≡ ok ps)
        × Any (λ a. Any (λ p. a ≡ p) ps) (w ∷ ws))
unfolding check_accepted_policies
check_accepted_policies_iff x cert w ws = elim (Result-cases (extract_policies x cert)) [
  | inl (ps, e) ↦ (
    λ h. (ps, e, ground (arith, any_accepted_iff (w ∷ ws) ps)),
    λ (qs, f, shared). ground (arith, any_accepted_iff (w ∷ ws) qs),
  )
  | inr (e, failed) ↦ (λ h. ground arith, λ (qs, f, shared). ground arith)
]

-- The subject's serial number names a natural person.
abbrev pub IsNatural : Certificate → Type 0
IsNatural c = has_prefix c.subject.serial_number natural_person_id_prefix ≡ true

-- Two certificates are given, and this holds of them.
abbrev pub Given :
    (Certificate → Certificate → Type 0) → Option Certificate → Option Certificate → Type 0
Given P none b = ⊥
Given P (some c) none = ⊥
Given P (some c) (some d) = P c d

-- The binding is checked exactly between two certificates of natural persons, and then fails
-- exactly if their serial numbers differ; between two others it is not checked, without an error;
-- and if a certificate is missing it is not checked, with the error of a mismatch.
pub check_same_natural_person_lem :
    (a b : Option Certificate)
    → ((check_same_natural_person a b ≡ (true, ok tt))
        ↔ Given
            (λ c d. IsNatural c × IsNatural d × (c.subject.serial_number ≡ d.subject.serial_number))
            a
            b)
      × ((check_same_natural_person a b ≡ (true, err err_identity_binding_mismatch))
          ↔ Given
              (λ c d.
                IsNatural c × IsNatural d × (c.subject.serial_number ≢ d.subject.serial_number))
              a
              b)
      × ((check_same_natural_person a b ≡ (false, ok tt))
          ↔ Given (λ c d. ¬ (IsNatural c × IsNatural d)) a b)
      × ((check_same_natural_person a b ≡ (false, err err_identity_binding_mismatch))
          ↔ ((a ≡ none) ⊎ (b ≡ none)))
unfolding check_same_natural_person
check_same_natural_person_lem none b = ground arith
check_same_natural_person_lem (some a) none = ground arith
check_same_natural_person_lem (some a) (some b) =
    ground (arith, text_eq_iff a.subject.serial_number b.subject.serial_number)
